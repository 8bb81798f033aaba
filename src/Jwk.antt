-- ===== src/Jwk.antt =====
-- jwt/api_jwk.py: class `PyJWK`.
pub mod KeySet
pub mod AlgorithmChoice
pub mod InitLaws
pub mod EcKeys
pub mod FromJson
pub mod KeySetLaws
use pyjwt.Prelude.{
  Bool, true, false, ◌&&◌, ◌||◌, not, Option, none, some, String, ◌==◌, is_in, if◌then◌else◌,
}
use pyjwt.Prelude.Assoc.{find}
use pyjwt.Errors.{
  Result, ok, raise, raise_if, invalid_key_error, missing_cryptography_error, py_jwk_error,
  type_error, ◌>>=◌, ◌>>◌,
}
use pyjwt.Value.{Value, Dict, str, list, dict, get, truthy, eq_str}
use pyjwt.Algorithms.{Algorithm, Key, Backend, get_default_algorithms, requires_cryptography}

pub record PyJwk (O : Type 0) : Type 0 where
  pub jwk_data : Dict
  pub algorithm_name : String
  pub algorithm : Algorithm O
  pub key : Key O

-- The `if kty == "EC"` chain: the algorithm for a key type and a curve.
unfoldable pub algorithm_for : Value → Value → Result String
algorithm_for kty crv =
    if eq_str kty "EC"
    then (if eq_str crv "P-256" || not (truthy crv)
        then ok "ES256"
        else if eq_str crv "P-384"
        then ok "ES384"
        else if eq_str crv "P-521"
        then ok "ES512"
        else if eq_str crv "secp256k1"
        then ok "ES256K"
        else raise invalid_key_error "Unsupported crv")
    else if eq_str kty "RSA"
    then ok "RS256"
    else if eq_str kty "oct"
    then ok "HS256"
    else if eq_str kty "OKP"
    then (if not (truthy crv)
        then raise invalid_key_error "crv is not found"
        else if eq_str crv "Ed25519"
        then ok "EdDSA"
        else raise invalid_key_error "Unsupported crv")
    else raise invalid_key_error "Unsupported kty"

-- `algorithm`, or the key's "alg", if either is truthy.
abbrev pub given_algorithm : Option String → Dict → Value
given_algorithm none jwk_data = get jwk_data "alg"
given_algorithm (some a) jwk_data = if a == "" then get jwk_data "alg" else str a

unfoldable pub choose_algorithm : Option String → Dict → Result Value
unfolding algorithm_for
choose_algorithm algorithm jwk_data =
    let given = given_algorithm algorithm jwk_data in
    if truthy given
    then ok given
    else do name ← algorithm_for (get jwk_data "kty") (get jwk_data "crv"); ok (str name)

module _ {O : Type 0} where
  abbrev pub found_algorithm : Option (Algorithm O) → Result (Algorithm O)
  found_algorithm none = raise py_jwk_error "Unable to find an algorithm for key"
  found_algorithm (some a) = ok a

module _ {O : Type 0} (b : Backend O) where
  -- The lookups of a truthy algorithm: a list or a dict is not hashable, so it cannot be looked up
  -- in a set or a dict; any other value that is no text is in neither.
  unfoldable pub lookup_algorithm : Value → Result (String × Algorithm O)
  lookup_algorithm (str name) = do
    raise_if (not b.has_crypto && is_in name requires_cryptography) missing_cryptography_error
        "requires 'cryptography' to be installed."
    alg ← found_algorithm (find name (get_default_algorithms b))
    ok (name, alg)
  lookup_algorithm (list _) = raise type_error "unhashable type: 'list'"
  lookup_algorithm (dict _) = raise type_error "unhashable type: 'dict'"
  lookup_algorithm _ = raise py_jwk_error "Unable to find an algorithm for key"

  -- PyJWK(jwk_data, algorithm)
  unfoldable pub init : Dict → Option String → Result (PyJwk O)
  unfolding lookup_algorithm choose_algorithm
  init jwk_data algorithm = do
    raise_if (not (truthy (get jwk_data "kty"))) invalid_key_error "kty is not found"
    chosen ← choose_algorithm algorithm jwk_data
    (name, alg) ← lookup_algorithm chosen
    key ← alg.from_jwk jwk_data
    ok (record { jwk_data = jwk_data; algorithm_name = name; algorithm = alg; key = key })

module _ {O : Type 0} where
  abbrev pub key_type : PyJwk O → Value
  key_type k = get k.jwk_data "kty"

  abbrev pub key_id : PyJwk O → Value
  key_id k = get k.jwk_data "kid"

  abbrev pub public_key_use : PyJwk O → Value
  public_key_use k = get k.jwk_data "use"
