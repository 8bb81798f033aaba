-- ===== src/Algorithms/Ec.antt =====
-- jwt/algorithms.py: `ECAlgorithm`, less the two JWK functions.
use pyjwt.Prelude.{ℕ, Bool, false, Option, none, some, List, [], ◌∷◌, nat_eq, if◌then◌else◌}
use pyjwt.Errors.{
  Result, ok, err, raise, except_try, isinstance, type_error, value_error, attribute_error,
  invalid_key_error, ◌>>=◌, ◌>>◌,
}
use pyjwt.Utils.Text.{Bytes, Text, force_bytes}
use pyjwt.Utils.KeyFormats.{codes, starts_with}
use pyjwt.Utils.Signatures.{der_to_raw_signature, raw_to_der_signature}
use pyjwt.Algorithms.{
  Key, no_key, secret, object, Algorithm, Hash, Curve, secp256r1, secp256k1, secp384r1, secp521r1,
}
use pyjwt.Algorithms.Crypto.{
  Cryptography, KeyClass, ec_private_key, ec_public_key, is_one_of, load_checked, accepted, no_sign,
}
use pyjwt.Algorithms.EcJwk.{ec_from_jwk}

abbrev pub ec_key_types : List KeyClass
ec_key_types = ec_private_key ∷ ec_public_key ∷ []

abbrev curve_number : Curve → ℕ
curve_number secp256r1 = 0
curve_number secp256k1 = 1
curve_number secp384r1 = 2
curve_number secp521r1 = 3

-- isinstance(key.curve, expected)
abbrev pub is_curve : Option Curve → Curve → Bool
is_curve none expected = false
is_curve (some curve) expected = nat_eq (curve_number curve) (curve_number expected)

unfoldable pub validate_curve : Option Curve → Option Curve → Result (Unit {0})
validate_curve none curve = ok tt
validate_curve (some expected) curve =
    if is_curve curve expected
    then ok tt
    else raise invalid_key_error "The key's curve does not match the expected curve"

module _ {O : Type 0} (c : Cryptography O) (expected_curve : Option Curve) where
  abbrev pub validated : O → Result (Key O)
  validated key = do validate_curve expected_curve (c.curve key); ok (object key)

  -- The try statement of `prepare_key` and its handler.
  abbrev pub verifying_key : Bytes → Result (Key O)
  verifying_key key_bytes = do
    key ← load_checked c ec_key_types (
        if starts_with key_bytes (codes "ecdsa-sha2-")
        then c.load_ssh_public_key key_bytes
        else c.load_pem_public_key key_bytes)
    validated key

  abbrev pub signing_key : Bytes → Result (Key O)
  signing_key key_bytes = do
    key ← load_checked c ec_key_types (c.load_pem_private_key key_bytes)
    validated key

  unfoldable pub load_ec_key : Bytes → Result (Key O)
  unfolding load_checked validate_curve
  load_ec_key key_bytes = except_try (verifying_key key_bytes) value_error (signing_key key_bytes)

  unfoldable pub prepare_ec_key : Key O → Result (Key O)
  unfolding load_ec_key validate_curve
  prepare_ec_key (object key) =
      if is_one_of (c.class_of key) ec_key_types
      then validated key
      else raise type_error "Expecting a PEM-formatted key."
  prepare_ec_key no_key = raise type_error "Expecting a PEM-formatted key."
  prepare_ec_key (secret Text.other) = raise type_error "Expecting a PEM-formatted key."
  prepare_ec_key (secret (Text.str s)) = do bs ← force_bytes (Text.str s); load_ec_key bs
  prepare_ec_key (secret (Text.bytes b)) = load_ec_key b

module _ {O : Type 0} (c : Cryptography O) where
  abbrev pub raw_signature : KeyClass → Hash → Bytes → O → Result Bytes
  raw_signature ec_private_key h msg key = do
    der_sig ← c.ec_sign key msg h
    der_to_raw_signature c.dss der_sig (c.curve_key_size key)
  raw_signature other h msg key = no_sign other

  -- A public key has no method `sign`.
  unfoldable pub ec_sign : Hash → Bytes → Key O → Result Bytes
  unfolding der_to_raw_signature
  ec_sign h msg (object key) = raw_signature (c.class_of key) h msg key
  ec_sign h msg _ = raise attribute_error "sign"

  -- The second try statement of `verify`, for the result of the first.
  abbrev pub check_der : Result Bytes → Hash → Bytes → O → Result Bool
  check_der (ok der_sig) h msg public_key = accepted (c.ec_verify public_key der_sig msg h)
  check_der (err e) h msg public_key = if isinstance e value_error then ok false else err e

  abbrev pub verify_raw : KeyClass → Hash → Bytes → O → Bytes → Result Bool
  verify_raw ec_private_key h msg key sig =
      check_der (raw_to_der_signature c.dss sig (c.curve_key_size key)) h msg (c.ec_public_key key)
  verify_raw ec_public_key h msg key sig =
      check_der (raw_to_der_signature c.dss sig (c.curve_key_size key)) h msg key
  verify_raw _ h msg key sig = raise attribute_error "curve"

  unfoldable pub ec_verify : Hash → Bytes → Key O → Bytes → Result Bool
  unfolding raw_to_der_signature
  ec_verify h msg (object key) sig = verify_raw (c.class_of key) h msg key sig
  ec_verify h msg _ sig = raise attribute_error "curve"

  abbrev pub ec_algorithm : Hash → Curve → Algorithm O
  ec_algorithm h expected_curve = record {
    prepare_key = prepare_ec_key c (some expected_curve);
    sign = ec_sign h;
    verify = ec_verify h;
    check_key_length = λ key. none;
    from_jwk = ec_from_jwk c;
  }
