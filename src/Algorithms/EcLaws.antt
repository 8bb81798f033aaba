-- ===== src/Algorithms/EcLaws.antt =====
-- Which keys and signatures `ECAlgorithm` of jwt/algorithms.py accepts.
use pyjwt.Prelude.{
  Bool, true, false, ◌≡◌, refl, inl, inr, Bool-cases, Option, none, some, if◌then◌else◌,
}
use pyjwt.Errors.{Result, ok, err, isinstance, value_error, ◌>>=◌}
use pyjwt.Errors.Bind.{>>=-eq-ok}
use pyjwt.Utils.Text.{Bytes, Text, force_bytes}
use pyjwt.Utils.KeyFormats.{codes, starts_with}
use pyjwt.Utils.Signatures.{raw_to_der_signature}
use pyjwt.Algorithms.{
  Key, no_key, secret, object, Hash, Curve, secp256r1, secp256k1, secp384r1, secp521r1,
}
use pyjwt.Algorithms.Crypto.{
  Cryptography, KeyClass, ec_private_key, ec_public_key, rsa_public_key, is_one_of, load_checked,
}
use pyjwt.Algorithms.KeyChecks.{load_checked-HasClass, except_try-eq-ok, accepted-eq-true}
use pyjwt.Algorithms.Ec.{
  ec_key_types, is_curve, validate_curve, validated, verifying_key, signing_key, load_ec_key,
  prepare_ec_key, check_der, verify_raw, ec_verify,
}

is_curve-eq-true :
    (curve : Option Curve) (expected : Curve)
    → is_curve curve expected ≡ true
    → curve ≡ some expected
is_curve-eq-true none expected h = cc
is_curve-eq-true (some secp256r1) secp256r1 h = refl
is_curve-eq-true (some secp256k1) secp256k1 h = refl
is_curve-eq-true (some secp384r1) secp384r1 h = refl
is_curve-eq-true (some secp521r1) secp521r1 h = refl
is_curve-eq-true (some _) _ h = cc

validate_curve-eq-ok :
    (expected : Curve) (curve : Option Curve)
    → validate_curve (some expected) curve ≡ ok tt
    → curve ≡ some expected
unfolding validate_curve
validate_curve-eq-ok expected curve h = elim (Bool-cases (is_curve curve expected)) [
  | inl t ↦ is_curve-eq-true curve expected t
  | inr t ↦ let h' = rw t at h in cc
]

module _ {O : Type 0} (c : Cryptography O) where
  -- An EC key object on the curve.
  abbrev pub HasCurve : Curve → Key O → Type 0
  HasCurve expected key =
      (o : O) × (key ≡ object o)
      × (is_one_of (c.class_of o) ec_key_types ≡ true)
      × (c.curve o ≡ some expected)

module _ {O : Type 0} (c : Cryptography O) (expected : Curve) where
  validated-HasCurve :
      (o : O) (key : Key O)
      → is_one_of (c.class_of o) ec_key_types ≡ true
      → validated c (some expected) o ≡ ok key
      → HasCurve c expected key
  validated-HasCurve o key is_ec h =
      let (u, valid, same) = >>=-eq-ok (validate_curve (some expected) (c.curve o)) _ h in
      (o, cc, is_ec, validate_curve-eq-ok expected (c.curve o) valid)

  loaded-HasCurve :
      (loaded : Result O) (key : Key O)
      → (load_checked c ec_key_types loaded >>= validated c (some expected)) ≡ ok key
      → HasCurve c expected key
  loaded-HasCurve loaded key h =
      let (o, checked, valid) = >>=-eq-ok (load_checked c ec_key_types loaded) _ h in
      validated-HasCurve o key (load_checked-HasClass c ec_key_types loaded o checked) valid

  load_ec_key-HasCurve :
      (bs : Bytes) (key : Key O)
      → load_ec_key c (some expected) bs ≡ ok key
      → HasCurve c expected key
  unfolding load_ec_key
  load_ec_key-HasCurve bs key h =
      elim (except_try-eq-ok (verifying_key c (some expected) bs) value_error
        (signing_key c (some expected) bs) h) [
          | inl first ↦
              loaded-HasCurve
                (if starts_with bs (codes "ecdsa-sha2-")
                  then c.load_ssh_public_key bs
                  else c.load_pem_public_key bs)
                key first
          | inr second ↦ loaded-HasCurve (c.load_pem_private_key bs) key second
        ]

  object-HasCurve :
      (o : O) (key : Key O) (t : Bool)
      → is_one_of (c.class_of o) ec_key_types ≡ t
      → prepare_ec_key c (some expected) (object o) ≡ ok key
      → HasCurve c expected key
  unfolding prepare_ec_key
  object-HasCurve o key true e h = validated-HasCurve o key e (let h' = rw e at h in h')
  object-HasCurve o key false e h = let h' = rw e at h in cc

  -- `prepare_key` lets only EC keys on the expected curve through.
  pub prepare_ec_key-HasCurve :
      (key prepared : Key O)
      → prepare_ec_key c (some expected) key ≡ ok prepared
      → HasCurve c expected prepared
  unfolding prepare_ec_key
  prepare_ec_key-HasCurve no_key prepared h = cc
  prepare_ec_key-HasCurve (object o) prepared h = object-HasCurve o prepared _ refl h
  prepare_ec_key-HasCurve (secret Text.other) prepared h = cc
  prepare_ec_key-HasCurve (secret (Text.bytes b)) prepared h = load_ec_key-HasCurve b prepared h
  prepare_ec_key-HasCurve (secret (Text.str s)) prepared h =
      let (bs, e, h') = >>=-eq-ok (force_bytes (Text.str s)) _ h in
      load_ec_key-HasCurve bs prepared h'

module _ {O : Type 0} (c : Cryptography O) where
  -- The key that the package verifies with.
  abbrev pub public_of : KeyClass → O → O
  public_of ec_private_key o = c.ec_public_key o
  public_of _ o = o

  check_der-eq-true :
      (der : Result Bytes) (h : Hash) (msg : Bytes) (o : O)
      → check_der c der h msg o ≡ ok true
      → (der_sig : Bytes) × (der ≡ ok der_sig) × (c.ec_verify o der_sig msg h ≡ ok tt)
  check_der-eq-true (ok der_sig) h msg o e = (der_sig, refl, accepted-eq-true _ e)
  check_der-eq-true (err x) h msg o e = elim (Bool-cases (isinstance x value_error)) [
    | inl t ↦ let e' = rw t at e in cc
    | inr t ↦ let e' = rw t at e in cc
  ]

  verify_raw-eq-true :
      (k : KeyClass) (h : Hash) (msg : Bytes) (o : O) (sig : Bytes)
      → verify_raw c k h msg o sig ≡ ok true
      → (der_sig : Bytes) × (raw_to_der_signature c.dss sig (c.curve_key_size o) ≡ ok der_sig)
        × (c.ec_verify (public_of k o) der_sig msg h ≡ ok tt)
  verify_raw-eq-true ec_private_key h msg o sig e = check_der-eq-true _ h msg (c.ec_public_key o) e
  verify_raw-eq-true ec_public_key h msg o sig e = check_der-eq-true _ h msg o e
  verify_raw-eq-true rsa_public_key h msg o sig e = cc
  verify_raw-eq-true _ h msg o sig e = cc

  pub ec_verify-eq-true :
      (h : Hash) (msg : Bytes) (o : O) (sig : Bytes)
      → ec_verify c h msg (object o) sig ≡ ok true
      → (der_sig : Bytes) × (raw_to_der_signature c.dss sig (c.curve_key_size o) ≡ ok der_sig)
        × (c.ec_verify (public_of (c.class_of o) o) der_sig msg h ≡ ok tt)
  unfolding ec_verify
  ec_verify-eq-true h msg o sig e = verify_raw-eq-true (c.class_of o) h msg o sig e
