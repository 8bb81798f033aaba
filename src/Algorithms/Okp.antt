-- ===== src/Algorithms/Okp.antt =====
-- jwt/algorithms.py: `OKPAlgorithm`, less the two JWK functions. A message and a signature are bytes, as
-- the rest of the library passes them.
use pyjwt.Prelude.{ℕ, Bool, true, none, some, List, [], ◌∷◌, if◌then◌else◌}
use pyjwt.Errors.{Result, ok, raise, attribute_error, invalid_key_error, ◌>>=◌, ◌>>◌}
use pyjwt.Utils.Text.{Bytes, Text, utf8}
use pyjwt.Utils.Utf8.{decode_utf8}
use pyjwt.Utils.KeyFormats.{codes, starts_with, search_in}
use pyjwt.Algorithms.{Key, no_key, secret, object, Algorithm}
use pyjwt.Algorithms.Crypto.{
  Cryptography, KeyClass, ed25519_private_key, ed25519_public_key, ed448_private_key,
  ed448_public_key, other_class, load_checked, check_crypto_key_type, accepted, no_sign, no_verify,
}
use pyjwt.Algorithms.OkpJwk.{okp_from_jwk}

abbrev pub okp_key_types : List KeyClass
okp_key_types = ed25519_private_key ∷ ed25519_public_key ∷ ed448_private_key ∷ ed448_public_key ∷ []

-- text in s
abbrev pub contains : List ℕ → List ℕ → Bool
contains s text = search_in (λ rest. starts_with rest text) s

module _ {O : Type 0} (c : Cryptography O) where
  -- The class of what a caller passes; only a key object has one of the package's.
  abbrev pub class_of_key : Key O → KeyClass
  class_of_key (object key) = c.class_of key
  class_of_key _ = other_class

  -- The `if` chain, for the text and the bytes of the key.
  abbrev pub loaded_key : List ℕ → Bytes → Result O
  loaded_key key_str key_bytes =
      if contains key_str (codes "-----BEGIN PUBLIC")
      then c.load_pem_public_key key_bytes
      else if contains key_str (codes "-----BEGIN PRIVATE")
      then c.load_pem_private_key key_bytes
      else if starts_with key_str (codes "ssh-")
      then c.load_ssh_public_key key_bytes
      else raise invalid_key_error "Not a public or private key"

  abbrev pub load_okp_key : List ℕ → Bytes → Result (Key O)
  load_okp_key key_str key_bytes = do
    key ← load_checked c okp_key_types (loaded_key key_str key_bytes)
    ok (object key)

  abbrev pub unloaded_key : Key O → Result (Key O)
  unloaded_key key = do check_crypto_key_type true (some okp_key_types) (class_of_key key); ok key

  unfoldable pub prepare_okp_key : Key O → Result (Key O)
  unfolding load_checked check_crypto_key_type
  prepare_okp_key (secret (Text.str s)) = do key_bytes ← utf8 s; load_okp_key s key_bytes
  prepare_okp_key (secret (Text.bytes b)) = do key_str ← decode_utf8 b; load_okp_key key_str b
  prepare_okp_key (secret Text.other) = unloaded_key (secret Text.other)
  prepare_okp_key no_key = unloaded_key no_key
  prepare_okp_key (object key) = unloaded_key (object key)

  abbrev pub class_sign : KeyClass → Bytes → O → Result Bytes
  class_sign ed25519_private_key msg key = c.ed_sign key msg
  class_sign ed448_private_key msg key = c.ed_sign key msg
  class_sign other msg key = no_sign other

  -- A public key has no method `sign`.
  unfoldable pub okp_sign : Bytes → Key O → Result Bytes
  okp_sign msg (object key) = class_sign (c.class_of key) msg key
  okp_sign msg _ = raise attribute_error "sign"

  abbrev pub class_verify : KeyClass → Bytes → O → Bytes → Result Bool
  class_verify ed25519_private_key msg key sig =
      accepted (c.ed_verify (c.ed_public_key key) sig msg)
  class_verify ed448_private_key msg key sig = accepted (c.ed_verify (c.ed_public_key key) sig msg)
  class_verify ed25519_public_key msg key sig = accepted (c.ed_verify key sig msg)
  class_verify ed448_public_key msg key sig = accepted (c.ed_verify key sig msg)
  class_verify other msg key sig = no_verify other

  unfoldable pub okp_verify : Bytes → Key O → Bytes → Result Bool
  okp_verify msg (object key) sig = class_verify (c.class_of key) msg key sig
  okp_verify msg _ sig = raise attribute_error "verify"

  abbrev pub okp_algorithm : Algorithm O
  okp_algorithm = record {
    prepare_key = prepare_okp_key;
    sign = okp_sign;
    verify = okp_verify;
    check_key_length = λ key. none;
    from_jwk = okp_from_jwk c;
  }
