-- ===== src/Client/Fetch.antt =====
-- Class `PyJWKClient` of jwt/jwks_client.py. What the endpoint answers, and when, is an input.
use pyjwt.Prelude.{
  Bool, true, false, ◌&&◌, ◌||◌, Option, none, some, String, List, [], ◌∷◌, if◌then◌else◌,
}
use pyjwt.Prelude.Int.{ℤ, pos, leb_ℤ}
use pyjwt.Errors.{
  Error, Result, ok, err, raise, py_jwk_client_error, py_jwk_client_connection_error, ◌>>=◌,
}
use pyjwt.Value.{Value, Dict, dict, truthy, eq_str, is_none}
use pyjwt.Algorithms.{Backend}
use pyjwt.Jwk.{PyJwk, key_id, public_key_use}
use pyjwt.Jwk.KeySet
use pyjwt.Jwk.KeySet.{PyJwkSet}
use pyjwt.Client.Cache
use pyjwt.Client.Cache.{JwkSetCache}

-- The client's state: the key-set cache, if there is one. The URI, headers, timeout and TLS context
-- only go into the request.
pub record PyJwkClient : Type 0 where
  pub jwk_set_cache : Option (JwkSetCache Value)

-- One request: a JSON value, a URLError or TimeoutError, or another exception (such as a response
-- that is no JSON), and the time when the response is put into the cache.
pub data Response : Type 0 where
  json_value : Value → Response
  connection_failure : Response
  other_failure : Error → Response

pub record Request : Type 0 where
  pub response : Response
  pub finished : ℤ

-- PyJWKClient(uri, cache_jwk_set=…, lifespan=…)
unfoldable pub init : Bool → ℤ → Result PyJwkClient
init false lifespan = ok (record { jwk_set_cache = none })
init true lifespan =
    if leb_ℤ lifespan (pos 0)
    then raise py_jwk_client_error "Lifespan must be greater than 0"
    else ok (record { jwk_set_cache = some (Cache.init lifespan) })

-- The value of `jwk_set` in `finally`; a JSON null is None.
abbrev pub fetched : Response → Option Value
fetched (json_value v) = if is_none v then none else some v
fetched connection_failure = none
fetched (other_failure e) = none

abbrev pub outcome : Response → Result Value
outcome (json_value v) = ok v
outcome connection_failure = raise py_jwk_client_connection_error "Fail to fetch data from the url"
outcome (other_failure e) = err e

abbrev pub put_fetched : Option (JwkSetCache Value) → Request → Option (JwkSetCache Value)
put_fetched none r = none
put_fetched (some c) r = some (Cache.put (fetched r.response) r.finished c)

-- The cache is written in `finally`, so also when the request failed.
unfoldable pub fetch_data : PyJwkClient → Request → Result Value × PyJwkClient
fetch_data client r =
    (outcome r.response, record client { jwk_set_cache = put_fetched client.jwk_set_cache r })

abbrev pub cached : Option (JwkSetCache Value) → Bool → ℤ → Option Value
cached none refresh now = none
cached (some c) refresh now = if refresh then none else Cache.get c now

-- The data, from the cache or else from the endpoint.
abbrev pub data_or_fetch : Option Value → PyJwkClient → Request → Result Value × PyJwkClient
data_or_fetch none client r = fetch_data client r
data_or_fetch (some v) client r = (ok v, client)

abbrev pub need_dict : Value → Result Dict
need_dict (dict d) = ok d
need_dict _ = raise py_jwk_client_error "The JWKS endpoint did not return a JSON object"

-- `key.key_id == kid`, for a `kid` that is a text or None.
abbrev pub same_id : Value → Option String → Bool
same_id v none = is_none v
same_id v (some kid) = eq_str v kid

module _ {O : Type 0} where
  -- public_key_use in ["sig", None] and key_id
  abbrev pub is_signing_key : PyJwk O → Bool
  is_signing_key k =
      (eq_str (public_key_use k) "sig" || is_none (public_key_use k)) && truthy (key_id k)

  unfoldable pub signing_keys : List (PyJwk O) → List (PyJwk O)
  signing_keys [] = []
  signing_keys (k ∷ ks) = let rest = signing_keys ks in if is_signing_key k then k ∷ rest else rest

  abbrev pub need_keys : List (PyJwk O) → Result (List (PyJwk O))
  need_keys [] = raise py_jwk_client_error "The JWKS endpoint did not contain any signing keys"
  need_keys (k ∷ ks) = ok (k ∷ ks)

  abbrev pub keys_of : Result (PyJwkSet O) → Result (List (PyJwk O))
  keys_of r = do s ← r; need_keys (signing_keys s.keys)

  -- The loop of `match_kid`.
  unfoldable pub match_kid : List (PyJwk O) → Option String → Option (PyJwk O)
  match_kid [] kid = none
  match_kid (k ∷ ks) kid = if same_id (key_id k) kid then some k else match_kid ks kid

  abbrev pub need_match : Option (PyJwk O) → Result (PyJwk O)
  need_match none = raise py_jwk_client_error "Unable to find a signing key that matches"
  need_match (some k) = ok k

module _ {O : Type 0} (b : Backend O) where
  abbrev pub make_set : Result Value → Result (PyJwkSet O)
  make_set r = do v ← r; d ← need_dict v; KeySet.from_dict b d

  -- `now` is the time when the cache is read; `r` is used only if a request is made.
  unfoldable pub get_jwk_set : PyJwkClient → Bool → ℤ → Request → Result (PyJwkSet O) × PyJwkClient
  get_jwk_set client refresh now r =
      let (res, client') = data_or_fetch (cached client.jwk_set_cache refresh now) client r in
      (make_set res, client')

  unfoldable pub get_signing_keys :
      PyJwkClient → Bool → ℤ → Request → Result (List (PyJwk O)) × PyJwkClient
  get_signing_keys client refresh now r =
      let (res, client') = get_jwk_set client refresh now r in (keys_of res, client')

  -- The second try.
  unfoldable pub retry : PyJwkClient → Option String → ℤ → Request → Result (PyJwk O) × PyJwkClient
  retry client kid now r =
      let (res, client') = get_signing_keys client true now r in
      ((do ks ← res; need_match (match_kid ks kid)), client')

  abbrev pub first_match :
      Result (Option (PyJwk O))
      → PyJwkClient
      → Option String
      → ℤ
      → Request
      → Result (PyJwk O) × PyJwkClient
  first_match (err e) client kid now r = (err e, client)
  first_match (ok (some k)) client kid now r = (ok k, client)
  first_match (ok none) client kid now r = retry client kid now r

  -- `first` and `second` are the requests that the first and the second try make, if they make one.
  unfoldable pub get_signing_key :
      PyJwkClient → Option String → ℤ → Request → Request → Result (PyJwk O) × PyJwkClient
  unfolding retry
  get_signing_key client kid now first second =
      let (res, client') = get_signing_keys client false now first in
      first_match (do ks ← res; ok (match_kid ks kid)) client' kid now second
