-- ===== src/Client/OutageLaws.antt =====
-- The cache as `PyJWKClient` of jwt/jwks_client.py uses it: a hit, and an endpoint that fails.
use pyjwt.Prelude.{false, ◌≡◌, refl, Option, none, some, String, List}
use pyjwt.Prelude.Int.{ℤ}
use pyjwt.Errors.{Error, ok, err}
use pyjwt.Value.{Value}
use pyjwt.Algorithms.{Backend}
use pyjwt.Jwk.{PyJwk}
use pyjwt.Client.Cache
use pyjwt.Client.Cache.{JwkSetCache, is_expired}
use pyjwt.Client.Fetch.{
  PyJwkClient, Request, Response, json_value, connection_failure, other_failure, outcome, fetched,
  put_fetched, fetch_data, cached, make_set, keys_of, get_jwk_set, get_signing_keys, match_kid,
  retry, get_signing_key,
}
use pyjwt.Client.FetchLaws.{cached-refresh}

fetched-failure : (r : Response) (e : Error) → outcome r ≡ err e → fetched r ≡ none
fetched-failure (json_value v) e h = cc
fetched-failure connection_failure e h = refl
fetched-failure (other_failure e') e h = refl

cached-put_none :
    (c : Option (JwkSetCache Value)) (r : Request) (now : ℤ)
    → fetched r.response ≡ none
    → cached (put_fetched c r) false now ≡ none
unfolding Cache.get Cache.put is_expired
cached-put_none none r now h = refl
cached-put_none (some c) r now h = rw h

-- A second try whose request fails.
retry-failure :
    {O : Type 0} (b : Backend O) (client : PyJwkClient) (kid : Option String) (now : ℤ)
    (second : Request) (e : Error)
    → outcome second.response ≡ err e
    → retry b client kid now second
      ≡ (err e, record client { jwk_set_cache = put_fetched client.jwk_set_cache second })
unfolding retry get_signing_keys get_jwk_set fetch_data
retry-failure b client kid now second e h = rw (cached-refresh client.jwk_set_cache now, h)

module _ {O : Type 0} (b : Backend O) where
  module _ (client : PyJwkClient) (kid : Option String) (now : ℤ) (v : Value) where
    -- If the cached data has a matching key, that key is returned whatever the requests would give,
    -- and the client is unchanged.
    pub get_signing_key-cached :
        (first second : Request) (ks : List (PyJwk O)) (k : PyJwk O)
        → cached client.jwk_set_cache false now ≡ some v
        → keys_of (make_set b (ok v)) ≡ ok ks
        → match_kid ks kid ≡ some k
        → get_signing_key b client kid now first second ≡ (ok k, client)
    unfolding get_signing_key get_signing_keys get_jwk_set
    get_signing_key-cached first second ks k e1 e2 e3 = rw (e1, e2, e3)

    outage :
        (first second : Request) (ks : List (PyJwk O)) (e : Error)
        → cached client.jwk_set_cache false now ≡ some v
        → keys_of (make_set b (ok v)) ≡ ok ks
        → match_kid ks kid ≡ none
        → outcome second.response ≡ err e
        → get_signing_key b client kid now first second
          ≡ (err e, record client { jwk_set_cache = put_fetched client.jwk_set_cache second })
    unfolding get_signing_key get_signing_keys get_jwk_set
    outage first second ks e e1 e2 e3 e4 =
        rw (e1, e2, e3) (retry-failure b client kid now second e e4)

    -- If the cached data has signing keys but none that matches and the refresh fails, its exception
    -- is raised and the cache is empty from then on: the keys that were cached are lost.
    pub get_signing_key-outage :
        (first second : Request) (ks : List (PyJwk O)) (e : Error) (after : ℤ)
        → cached client.jwk_set_cache false now ≡ some v
        → keys_of (make_set b (ok v)) ≡ ok ks
        → match_kid ks kid ≡ none
        → outcome second.response ≡ err e
        → ((get_signing_key b client kid now first second).0 ≡ err e)
          × (cached (get_signing_key b client kid now first second).1.jwk_set_cache false after
              ≡ none)
    get_signing_key-outage first second ks e after e1 e2 e3 e4 =
        rw (outage first second ks e e1 e2 e3 e4) (
          refl,
          cached-put_none client.jwk_set_cache second after (fetched-failure second.response e e4),
        )
