-- ===== src/Algorithms.antt =====
-- jwt/algorithms.py: the `Algorithm` interface, `NoneAlgorithm` and `HMACAlgorithm`. A key object of
-- the `cryptography` package is a value of the parameter `O`.
pub mod KeyLaws
pub mod HmacLaws
pub mod JwkLaws
pub mod Crypto
pub mod CryptoLaws
pub mod KeyChecks
pub mod JwkNumbers
pub mod Rsa
pub mod RsaJwk
pub mod RsaJwkLaws
pub mod RsaLaws
pub mod Ec
pub mod EcJwk
pub mod EcLaws
pub mod EcJwkLaws
pub mod EcSigning
pub mod Okp
pub mod OkpJwk
pub mod OkpLaws
pub mod OkpJwkLaws
pub mod Backends
pub mod JwkText
pub mod Digest
use pyjwt.Prelude.{
  ℕ, ◌+◌, Bool, true, false, ◌&&◌, ◌||◌, Option, none, some, String, List, [], ◌∷◌, ltb, nat_eq,
  length, not, if◌then◌else◌,
}
use pyjwt.Errors.{
  Result, ok, raise, raise_if, invalid_key_error, type_error, key_error, not_implemented_error,
  ◌>>=◌, ◌>>◌,
}
use pyjwt.Value
use pyjwt.Value.{empty, entry, Value, Dict, get, lookup, eq_str}
use pyjwt.Utils.Text
use pyjwt.Utils.Text.{Bytes, Text, force_bytes}
use pyjwt.Utils.Base64.{base64url_decode, base64url_encode}
use pyjwt.Utils.Ascii.{decode_ascii}
use pyjwt.Utils.KeyFormats.{codes, is_pem_format, is_ssh_key}

-- What a caller passes as a key, and what `prepare_key` returns.
pub data Key (O : Type 0) : Type 0 where
  no_key : Key O
  secret : Text → Key O
  object : O → Key O

-- The methods of an `Algorithm` that the rest of the library calls.
pub record Algorithm (O : Type 0) : Type 0 where
  pub prepare_key : Key O → Result (Key O)
  pub sign : Bytes → Key O → Result Bytes
  pub verify : Bytes → Key O → Bytes → Result Bool
  pub check_key_length : Key O → Option String
  pub from_jwk : Dict → Result (Key O)

module _ {O : Type 0} where
  unfoldable pub prepare_none_key : Key O → Result (Key O)
  prepare_none_key no_key = ok no_key
  prepare_none_key (secret (Text.str [])) = ok no_key
  prepare_none_key _ = raise invalid_key_error "When alg = \"none\", key value must be None."

  abbrev pub none_algorithm : Algorithm O
  none_algorithm = record {
    prepare_key = prepare_none_key;
    sign = λ msg key. ok [];
    verify = λ msg key sig. ok false;
    check_key_length = λ key. none;
    from_jwk = λ jwk. raise not_implemented_error "";
  }

-- The hash functions of hashlib that `HMACAlgorithm` uses.
pub data Hash : Type 0 where
  sha256 sha384 sha512 : Hash

abbrev pub digest_size : Hash → ℕ
digest_size sha256 = 32
digest_size sha384 = 48
digest_size sha512 = 64

-- hmac.compare_digest
unfoldable pub compare_digest : Bytes → Bytes → Bool
compare_digest [] [] = true
compare_digest [] (b ∷ bs) = false
compare_digest (a ∷ as') [] = false
compare_digest (a ∷ as') (b ∷ bs) = nat_eq a b && compare_digest as' bs

abbrev pub asymmetric_message : String
asymmetric_message =
    "The specified key is an asymmetric key or x509 certificate and should not be used as an HMAC secret."

abbrev short_key : Result Bytes → Hash → Option String
short_key (ok bs) h =
    if ltb (length bs) (digest_size h)
    then some "The HMAC key is below the minimum recommended length"
    else none
short_key _ h = none

-- obj["k"]
abbrev pub jwk_text : Option Value → Result Text
jwk_text none = raise key_error "k"
jwk_text (some (Value.str s)) = ok (Text.str (codes s))
jwk_text (some _) = ok Text.other

module _ {O : Type 0} where
  -- The bytes that `prepare_key` left; a call with any other key fails in `hmac` and `len`.
  abbrev pub key_bytes : Key O → Result Bytes
  key_bytes (secret (Text.bytes b)) = ok b
  key_bytes _ = raise type_error "key: expected bytes or bytearray"

  abbrev pub text_of : Key O → Text
  text_of (secret t) = t
  text_of _ = Text.other

  unfoldable pub prepare_hmac_key : Key O → Result (Key O)
  prepare_hmac_key key = do
    bs ← force_bytes (text_of key)
    raise_if (is_pem_format bs || is_ssh_key bs) invalid_key_error asymmetric_message
    ok (secret (Text.bytes bs))

  unfoldable pub check_hmac_key_length : Hash → Key O → Option String
  check_hmac_key_length h key = short_key (key_bytes key) h

  unfoldable pub hmac_from_jwk : Dict → Result (Key O)
  hmac_from_jwk obj = do
    raise_if (not (eq_str (get obj "kty") "oct")) invalid_key_error "Not an HMAC key"
    k ← jwk_text (lookup "k" obj)
    bs ← base64url_decode k
    ok (secret (Text.bytes bs))

-- `to_jwk` with `as_dict=True`; otherwise it is dumped as JSON.
unfoldable pub hmac_to_jwk : Text → Result Dict
hmac_to_jwk key_obj = do
  bs ← force_bytes key_obj
  k ← decode_ascii (base64url_encode bs)
  ok (entry "k" (Value.str k) (entry "kty" (Value.str "oct") empty))

-- `hmac h key msg` is hmac.new(key, msg, h).digest().
module _ {O : Type 0} (hmac : Hash → Bytes → Bytes → Bytes) where
  unfoldable pub hmac_sign : Hash → Bytes → Key O → Result Bytes
  hmac_sign h msg key = do bs ← key_bytes key; ok (hmac h bs msg)

  unfoldable pub hmac_verify : Hash → Bytes → Key O → Bytes → Result Bool
  unfolding hmac_sign
  hmac_verify h msg key sig = do expected ← hmac_sign h msg key; ok (compare_digest sig expected)

  abbrev pub hmac_algorithm : Hash → Algorithm O
  hmac_algorithm h = record {
    prepare_key = prepare_hmac_key;
    sign = hmac_sign h;
    verify = hmac_verify h;
    check_key_length = check_hmac_key_length h;
    from_jwk = hmac_from_jwk;
  }

-- The curve classes of `cryptography` that algorithms.py names.
pub data Curve : Type 0 where
  secp256r1 secp256k1 secp384r1 secp521r1 : Curve

-- What `get_default_algorithms` builds its table from: whether `cryptography` is installed, hmac, and
-- the four algorithm classes that need `cryptography`.
pub record Backend (O : Type 0) : Type 0 where
  pub has_crypto : Bool
  pub hmac : Hash → Bytes → Bytes → Bytes
  pub rsa : Hash → Algorithm O
  pub ec : Hash → Curve → Algorithm O
  pub rsa_pss : Hash → Algorithm O
  pub okp : Algorithm O

abbrev pub requires_cryptography : List String
requires_cryptography =
    "RS256" ∷ "RS384" ∷ "RS512" ∷ "ES256" ∷ "ES256K" ∷ "ES384" ∷ "ES521" ∷ "ES512" ∷ "PS256"
    ∷ "PS384" ∷ "PS512" ∷ "EdDSA" ∷ []

module _ {O : Type 0} (b : Backend O) where
  abbrev crypto_algorithms : List (String × Algorithm O)
  crypto_algorithms =
      ("RS256", b.rsa sha256)
      ∷ ("RS384", b.rsa sha384)
      ∷ ("RS512", b.rsa sha512)
      ∷ ("ES256", b.ec sha256 secp256r1)
      ∷ ("ES256K", b.ec sha256 secp256k1)
      ∷ ("ES384", b.ec sha384 secp384r1)
      ∷ ("ES521", b.ec sha512 secp521r1)
      ∷ ("ES512", b.ec sha512 secp521r1)
      ∷ ("PS256", b.rsa_pss sha256)
      ∷ ("PS384", b.rsa_pss sha384)
      ∷ ("PS512", b.rsa_pss sha512)
      ∷ ("EdDSA", b.okp)
      ∷ []

  unfoldable pub get_default_algorithms : List (String × Algorithm O)
  get_default_algorithms =
      ("none", none_algorithm)
      ∷ ("HS256", hmac_algorithm b.hmac sha256)
      ∷ ("HS384", hmac_algorithm b.hmac sha384)
      ∷ ("HS512", hmac_algorithm b.hmac sha512)
      ∷ (if b.has_crypto then crypto_algorithms else [])
