-- ===== src/Algorithms/Rsa.antt =====
-- jwt/algorithms.py: `RSAAlgorithm` and `RSAPSSAlgorithm`, less the two JWK functions.
use pyjwt.Prelude.{Bool, Option, none, some, String, List, [], ◌∷◌, ltb, if◌then◌else◌}
use pyjwt.Errors.{
  Result, ok, raise, except_try, except_raise, type_error, value_error, attribute_error,
  unsupported_algorithm, invalid_key_error, ◌>>=◌,
}
use pyjwt.Utils.Text.{Bytes, Text, force_bytes}
use pyjwt.Utils.KeyFormats.{codes, starts_with}
use pyjwt.Algorithms.{Key, no_key, secret, object, Algorithm, Hash, digest_size}
use pyjwt.Algorithms.Crypto.{
  Cryptography, KeyClass, rsa_private_key, rsa_public_key, Padding, pkcs1v15, pss, is_one_of,
  load_checked, accepted, no_sign, no_verify,
}
use pyjwt.Algorithms.RsaJwk.{rsa_from_jwk}

abbrev pub rsa_key_types : List KeyClass
rsa_key_types = rsa_private_key ∷ rsa_public_key ∷ []

abbrev pub unparsed : String
unparsed = "Could not parse the provided public key."

module _ {O : Type 0} (c : Cryptography O) where
  abbrev pub checked_object : Result O → Result (Key O)
  checked_object loaded = do key ← load_checked c rsa_key_types loaded; ok (object key)

  -- The two try statements of `prepare_key`.
  abbrev pub first_key : Bytes → Result (Key O)
  first_key key_bytes =
      if starts_with key_bytes (codes "ssh-rsa")
      then checked_object (c.load_ssh_public_key key_bytes)
      else checked_object (c.load_pem_private_key key_bytes)

  abbrev pub second_key : Bytes → Result (Key O)
  second_key key_bytes =
      except_raise
        (except_raise (checked_object (c.load_pem_public_key key_bytes)) value_error
          invalid_key_error unparsed)
        unsupported_algorithm invalid_key_error unparsed

  unfoldable pub load_rsa_key : Bytes → Result (Key O)
  unfolding load_checked
  load_rsa_key key_bytes = except_try (first_key key_bytes) value_error (second_key key_bytes)

  unfoldable pub prepare_rsa_key : Key O → Result (Key O)
  unfolding load_rsa_key
  prepare_rsa_key (object key) =
      if is_one_of (c.class_of key) rsa_key_types
      then ok (object key)
      else raise type_error "Expecting a PEM-formatted key."
  prepare_rsa_key no_key = raise type_error "Expecting a PEM-formatted key."
  prepare_rsa_key (secret Text.other) = raise type_error "Expecting a PEM-formatted key."
  prepare_rsa_key (secret (Text.str s)) = do bs ← force_bytes (Text.str s); load_rsa_key bs
  prepare_rsa_key (secret (Text.bytes b)) = load_rsa_key b

  -- `prepare_key` and `from_jwk` return objects only.
  unfoldable pub check_rsa_key_length : Key O → Option String
  check_rsa_key_length (object key) =
      if ltb (c.rsa_key_size key) 2048
      then some "The RSA key is below the minimum recommended size of 2048 bits."
      else none
  check_rsa_key_length _ = none

  abbrev sign_with : KeyClass → Hash → Padding → Bytes → O → Result Bytes
  sign_with rsa_private_key h p msg key = c.rsa_sign key msg p h
  sign_with other h p msg key = no_sign other

  -- A public key has no method `sign`, and a private one no `verify`.
  unfoldable pub rsa_sign : Hash → Padding → Bytes → Key O → Result Bytes
  rsa_sign h p msg (object key) = sign_with (c.class_of key) h p msg key
  rsa_sign h p msg _ = raise attribute_error "sign"

  abbrev pub verify_with : KeyClass → Hash → Padding → Bytes → O → Bytes → Result Bool
  verify_with rsa_public_key h p msg key sig = accepted (c.rsa_verify key sig msg p h)
  verify_with other h p msg key sig = no_verify other

  unfoldable pub rsa_verify : Hash → Padding → Bytes → Key O → Bytes → Result Bool
  rsa_verify h p msg (object key) sig = verify_with (c.class_of key) h p msg key sig
  rsa_verify h p msg _ sig = raise attribute_error "verify"

  abbrev pub rsa_with : Padding → Hash → Algorithm O
  rsa_with p h = record {
    prepare_key = prepare_rsa_key;
    sign = rsa_sign h p;
    verify = rsa_verify h p;
    check_key_length = check_rsa_key_length;
    from_jwk = rsa_from_jwk c;
  }

  abbrev pub rsa_algorithm : Hash → Algorithm O
  rsa_algorithm h = rsa_with pkcs1v15 h

  abbrev pub rsa_pss_algorithm : Hash → Algorithm O
  rsa_pss_algorithm h = rsa_with (pss h (digest_size h)) h
