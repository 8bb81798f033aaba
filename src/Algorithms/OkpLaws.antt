-- ===== src/Algorithms/OkpLaws.antt =====
-- Which keys and signatures `OKPAlgorithm` of jwt/algorithms.py accepts.
use pyjwt.Prelude.{true, ◌≡◌, sym, ◌∙◌, ◌⊎◌, inl, inr, some, List, ℕ}
use pyjwt.Errors.{ok}
use pyjwt.Errors.Bind.{>>=-eq-ok}
use pyjwt.Utils.Text.{Bytes, IsBytes, Text, utf8}
use pyjwt.Utils.Utf8.{decode_utf8}
use pyjwt.Algorithms.{Key, no_key, secret, object}
use pyjwt.Algorithms.Crypto.{
  Cryptography, KeyClass, EdCurve, ed25519, ed448, ed25519_private_key, ed25519_public_key,
  ed448_private_key, ed448_public_key, rsa_public_key, load_checked, check_crypto_key_type,
}
use pyjwt.Algorithms.CryptoLaws.{EdLaws, ed_public_class, ed_private_class}
use pyjwt.Algorithms.KeyChecks.{
  HasClass, load_checked-HasClass, check_crypto_key_type-eq-ok, accepted-eq-true,
}
use pyjwt.Algorithms.Okp.{
  okp_key_types, loaded_key, load_okp_key, unloaded_key, prepare_okp_key, class_verify, okp_sign,
  okp_verify,
}

module _ {O : Type 0} (c : Cryptography O) where
  load_okp_key-HasClass :
      (key_str : List ℕ) (bs : Bytes) (key : Key O)
      → load_okp_key c key_str bs ≡ ok key
      → HasClass c okp_key_types key
  load_okp_key-HasClass key_str bs key h =
      let loaded = loaded_key c key_str bs in
      let (o, checked, same) = >>=-eq-ok (load_checked c okp_key_types loaded) _ h in
      (o, cc, load_checked-HasClass c okp_key_types loaded o checked)

  unloaded_key-object :
      (o : O) (key : Key O) → unloaded_key c (object o) ≡ ok key → HasClass c okp_key_types key
  unloaded_key-object o key h =
      let (u, checked, same) =
        >>=-eq-ok (check_crypto_key_type true (some okp_key_types) (c.class_of o)) _ h in
      (o, cc, check_crypto_key_type-eq-ok okp_key_types (c.class_of o) checked)

  -- `prepare_key` lets only Ed25519 and Ed448 keys through.
  pub prepare_okp_key-HasClass :
      (key prepared : Key O)
      → prepare_okp_key c key ≡ ok prepared
      → HasClass c okp_key_types prepared
  unfolding prepare_okp_key
  prepare_okp_key-HasClass no_key prepared h = cc
  prepare_okp_key-HasClass (object o) prepared h = unloaded_key-object o prepared h
  prepare_okp_key-HasClass (secret Text.other) prepared h = cc
  prepare_okp_key-HasClass (secret (Text.bytes b)) prepared h =
      let (s, e, h') = >>=-eq-ok (decode_utf8 b) _ h in load_okp_key-HasClass s b prepared h'
  prepare_okp_key-HasClass (secret (Text.str s)) prepared h =
      let (bs, e, h') = >>=-eq-ok (utf8 s) _ h in load_okp_key-HasClass s bs prepared h'

  -- The key that the package verifies with.
  abbrev pub public_of : KeyClass → O → O
  public_of ed25519_private_key o = c.ed_public_key o
  public_of ed448_private_key o = c.ed_public_key o
  public_of _ o = o

  class_verify-eq-true :
      (k : KeyClass) (msg : Bytes) (o : O) (sig : Bytes)
      → class_verify c k msg o sig ≡ ok true
      → c.ed_verify (public_of k o) sig msg ≡ ok tt
  class_verify-eq-true ed25519_private_key msg o sig e = accepted-eq-true _ e
  class_verify-eq-true ed448_private_key msg o sig e = accepted-eq-true _ e
  class_verify-eq-true ed25519_public_key msg o sig e = accepted-eq-true _ e
  class_verify-eq-true ed448_public_key msg o sig e = accepted-eq-true _ e
  class_verify-eq-true rsa_public_key msg o sig e = cc
  class_verify-eq-true _ msg o sig e = cc

  pub okp_verify-eq-true :
      (msg : Bytes) (o : O) (sig : Bytes)
      → okp_verify c msg (object o) sig ≡ ok true
      → c.ed_verify (public_of (c.class_of o) o) sig msg ≡ ok tt
  unfolding okp_verify
  okp_verify-eq-true msg o sig e = class_verify-eq-true (c.class_of o) msg o sig e

  okp_sign-ed_sign :
      (msg : Bytes) (o : O) (curve : EdCurve)
      → c.class_of o ≡ ed_private_class curve
      → okp_sign c msg (object o) ≡ c.ed_sign o msg
  unfolding okp_sign
  okp_sign-ed_sign msg o ed25519 h = rw h
  okp_sign-ed_sign msg o ed448 h = rw h

  -- `verify` accepts with a key what the package accepts with its public key.
  okp_verify-ed_verify :
      (msg : Bytes) (o : O) (curve : EdCurve) (sig : Bytes)
      → c.class_of o ≡ ed_private_class curve
      → c.class_of (c.ed_public_key o) ≡ ed_public_class curve
      → c.ed_verify (c.ed_public_key o) sig msg ≡ ok tt
      → (okp_verify c msg (object o) sig ≡ ok true)
        × (okp_verify c msg (object (c.ed_public_key o)) sig ≡ ok true)
  unfolding okp_verify
  okp_verify-ed_verify msg o ed25519 sig h k accepts = (rw (h, accepts), rw (k, accepts))
  okp_verify-ed_verify msg o ed448 sig h k accepts = (rw (h, accepts), rw (k, accepts))

  -- A signature that `sign` makes with an Ed25519 or Ed448 private key is accepted by `verify` with that
  -- key and with its public key; the package's public key must accept the package's signatures.
  pub okp_verify-okp_sign :
      (laws : EdLaws c) (msg : Bytes) (o : O) (curve : EdCurve) (sig : Bytes)
      → c.class_of o ≡ ed_private_class curve
      → okp_sign c msg (object o) ≡ ok sig
      → IsBytes sig
        × (okp_verify c msg (object o) sig ≡ ok true)
        × (okp_verify c msg (object (c.ed_public_key o)) sig ≡ ok true)
  okp_verify-okp_sign laws msg o curve sig is_private e =
      let is_public = laws.has_public_key o curve is_private in
      let (are_bytes, accepts) =
        laws.signs o curve msg sig is_private (sym (okp_sign-ed_sign msg o curve is_private) ∙ e) in
      let (with_private, with_public) =
        okp_verify-ed_verify msg o curve sig is_private is_public accepts in
      (are_bytes, with_private, with_public)

  unloaded_key-private :
      (o : O) (curve : EdCurve)
      → c.class_of o ≡ ed_private_class curve
      → prepare_okp_key c (object o) ≡ ok (object o)
  unfolding prepare_okp_key
  unloaded_key-private o ed25519 h = rw h
  unloaded_key-private o ed448 h = rw h

  unloaded_key-public :
      (o : O) (curve : EdCurve)
      → c.class_of o ≡ ed_public_class curve
      → prepare_okp_key c (object o) ≡ ok (object o)
  unfolding prepare_okp_key
  unloaded_key-public o ed25519 h = rw h
  unloaded_key-public o ed448 h = rw h

  -- A key object of one of the classes is left as it is.
  pub prepare_okp_key-object :
      (o : O) (curve : EdCurve)
      → (c.class_of o ≡ ed_private_class curve) ⊎ (c.class_of o ≡ ed_public_class curve)
      → prepare_okp_key c (object o) ≡ ok (object o)
  prepare_okp_key-object o curve (inl h) = unloaded_key-private o curve h
  prepare_okp_key-object o curve (inr h) = unloaded_key-public o curve h
