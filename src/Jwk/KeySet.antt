-- ===== src/Jwk/KeySet.antt =====
-- jwt/api_jwk.py: class `PyJWKSet`.
use pyjwt.Prelude.{String, Option, none, some, List, [], ◌∷◌, if◌then◌else◌}
use pyjwt.Errors.{
  Result, ok, err, raise, isinstance, py_jwt_error, missing_cryptography_error, py_jwk_set_error,
  key_error, attribute_error, ◌>>=◌,
}
use pyjwt.Value.{Value, Items, Dict, list, dict, nil, cons, lookup, truthy, or_default, eq_str}
use pyjwt.Algorithms.{Backend}
use pyjwt.Jwk
use pyjwt.Jwk.{PyJwk, key_id}

pub record PyJwkSet (O : Type 0) : Type 0 where
  pub keys : List (PyJwk O)

module _ {O : Type 0} (b : Backend O) where
  -- PyJWK(key) for an element of the list. One that is no dict has no `get`: AttributeError.
  unfoldable pub make_key : Value → Result (PyJwk O)
  make_key (dict d) = Jwk.init b d none
  make_key _ = raise attribute_error "object has no attribute 'get'"

  -- What the handler in the loop makes of a key: it raises, skips the key, or adds it.
  abbrev pub collect : Result (PyJwk O) → Result (List (PyJwk O)) → Result (List (PyJwk O))
  collect (ok k) rest = do ks ← rest; ok (k ∷ ks)
  collect (err e) rest =
      if isinstance e py_jwt_error
      then (if isinstance e missing_cryptography_error then err e else rest)
      else err e

  unfoldable pub usable_keys : Items → Result (List (PyJwk O))
  usable_keys nil = ok []
  usable_keys (cons v vs) = collect (make_key v) (usable_keys vs)

  abbrev pub non_empty : List (PyJwk O) → Result (PyJwkSet O)
  non_empty [] = raise py_jwk_set_error "The JWK Set did not contain any usable keys."
  non_empty (k ∷ ks) = ok (record { keys = k ∷ ks })

  abbrev init_list : Value → Result (PyJwkSet O)
  init_list (list vs) = do ks ← usable_keys vs; non_empty ks
  init_list _ = raise py_jwk_set_error "Invalid JWK Set value"

  -- PyJWKSet(keys)
  unfoldable pub init : Value → Result (PyJwkSet O)
  init keys =
      if truthy keys
      then init_list keys
      else raise py_jwk_set_error "The JWK Set did not contain any keys"

  unfoldable pub from_dict : Dict → Result (PyJwkSet O)
  unfolding init
  from_dict obj = init (or_default (lookup "keys" obj) (list nil))

module _ {O : Type 0} where
  -- The loop of `__getitem__`.
  unfoldable pub find_key : List (PyJwk O) → String → Option (PyJwk O)
  find_key [] kid = none
  find_key (k ∷ ks) kid = if eq_str (key_id k) kid then some k else find_key ks kid

  abbrev pub found_or_key_error : Option (PyJwk O) → Result (PyJwk O)
  found_or_key_error none = raise key_error "keyset has no key for kid"
  found_or_key_error (some k) = ok k

  -- jwk_set[kid]
  unfoldable pub get_item : PyJwkSet O → String → Result (PyJwk O)
  get_item s kid = found_or_key_error (find_key s.keys kid)
