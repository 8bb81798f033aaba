-- ===== src/Algorithms/EcSigning.antt =====
-- `sign` and then `verify` of `ECAlgorithm` in jwt/algorithms.py.
use pyjwt.Prelude.{ℕ, ◌*◌, ◌<◌, true, ◌≡◌, refl, sym, ◌∙◌, some, length, arith}
use mathlib.Core.Path.{subst}
use pyjwt.Errors.{ok}
use pyjwt.Errors.Bind.{>>=-eq-ok, ok-injective}
use pyjwt.Utils.Text.{Bytes, IsBytes}
use pyjwt.Utils.Signatures.{coordinate_bytes, der_to_raw_signature}
use pyjwt.Utils.DerSignatureLaws.{raw_to_der_signature-der_to_raw_signature}
use pyjwt.Algorithms.{object, Hash, Curve, secp256r1, secp256k1, secp384r1, secp521r1}
use pyjwt.Algorithms.Crypto.{Cryptography, ec_private_key, is_one_of}
use pyjwt.Algorithms.CryptoLaws.{EcLaws, key_size}
use pyjwt.Algorithms.Ec.{ec_key_types, is_curve, prepare_ec_key, ec_sign, ec_verify}

key_size-pos : (curve : Curve) → 0 < key_size curve
key_size-pos secp256r1 = omega arith
key_size-pos secp256k1 = omega arith
key_size-pos secp384r1 = omega arith
key_size-pos secp521r1 = omega arith

module _ {O : Type 0} (c : Cryptography O) (h : Hash) (msg : Bytes) where
  -- What `sign` made of the package's signature.
  ec_sign-eq-ok :
      (o : O) (sig : Bytes)
      → c.class_of o ≡ ec_private_key
      → ec_sign c h msg (object o) ≡ ok sig
      → (der : Bytes) × (c.ec_sign o msg h ≡ ok der)
        × (der_to_raw_signature c.dss der (c.curve_key_size o) ≡ ok sig)
  unfolding ec_sign
  ec_sign-eq-ok o sig is_private e =
      >>=-eq-ok (c.ec_sign o msg h) _ (let e' = rw is_private at e in e')

  -- A signature that `sign` makes with a private key on one of the four curves has twice the bytes of
  -- a coordinate, and `verify` accepts it with that key and with its public key; the package's public
  -- key must accept the package's signatures, which are DER of numbers that fit into the curve's size.
  pub ec_verify-ec_sign :
      (laws : EcLaws c) (o : O) (curve : Curve) (sig : Bytes)
      → c.class_of o ≡ ec_private_key
      → c.curve o ≡ some curve
      → ec_sign c h msg (object o) ≡ ok sig
      → (length sig ≡ 2 * coordinate_bytes (key_size curve))
        × IsBytes sig
        × (ec_verify c h msg (object o) sig ≡ ok true)
        × (ec_verify c h msg (object (c.ec_public_key o)) sig ≡ ok true)
  unfolding ec_verify
  ec_verify-ec_sign laws o curve sig is_private on_curve e =
      let (der, signed, made) = ec_sign-eq-ok o sig is_private e in
      let size = laws.sized o curve on_curve in
      let some_bits = subst (λ (n : ℕ). 0 < n) (sym size) (key_size-pos curve) in
      let (is_public, _, same_size) = laws.has_public_key o is_private in
      let (r, s, decoded, encoded, small_r, small_s, accepts) =
        laws.signs o msg h der is_private signed in
      let (raw, made', long, are_bytes, back) =
        raw_to_der_signature-der_to_raw_signature c.dss der r s (c.curve_key_size o) some_bits
          decoded encoded small_r small_s in
      let same : raw ≡ sig = ok-injective (sym made' ∙ made) in
      (
        rw (← same, long, size),
        subst IsBytes same are_bytes,
        rw (is_private, ← same, back, accepts),
        rw (is_public, same_size, ← same, back, accepts),
      )

  -- A public key accepts what its private key signed.
  pub ec_verify-public_key :
      (laws : EcLaws c) (o : O) (curve : Curve) (sig : Bytes)
      → c.class_of o ≡ ec_private_key
      → c.curve o ≡ some curve
      → ec_sign c h msg (object o) ≡ ok sig
      → IsBytes sig × (ec_verify c h msg (object (c.ec_public_key o)) sig ≡ ok true)
  ec_verify-public_key laws o curve sig is_private on_curve e =
      let (_, are_bytes, _, accepts) = ec_verify-ec_sign laws o curve sig is_private on_curve e in
      (are_bytes, accepts)

module _ {O : Type 0} (c : Cryptography O) where
  is_curve_refl : (curve : Curve) → is_curve (some curve) curve ≡ true
  is_curve_refl secp256r1 = refl
  is_curve_refl secp256k1 = refl
  is_curve_refl secp384r1 = refl
  is_curve_refl secp521r1 = refl

  -- A key object on the curve is left as it is.
  pub prepare_ec_key-object :
      (o : O) (curve : Curve)
      → is_one_of (c.class_of o) ec_key_types ≡ true
      → c.curve o ≡ some curve
      → prepare_ec_key c (some curve) (object o) ≡ ok (object o)
  unfolding prepare_ec_key
  prepare_ec_key-object o curve is_ec on_curve = rw (is_ec, on_curve, is_curve_refl curve)
