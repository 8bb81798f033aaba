-- ===== src/Client/KeyCache.antt =====
-- The second tier of `PyJWKClient` in jwt/jwks_client.py: `functools.lru_cache` over
-- `get_signing_key`, which `cache_keys` turns on.
use pyjwt.Prelude.{
  ℕ, Option, none, some, String, List, [], ◌∷◌, take, Bool, true, false, ◌==◌, if◌then◌else◌,
}
use pyjwt.Prelude.Int.{ℤ}
use pyjwt.Errors.{Result, ok, err}
use pyjwt.Algorithms.{Backend}
use pyjwt.Jwk.{PyJwk}
use pyjwt.Client.Fetch.{PyJwkClient, Request, get_signing_key}

-- The cached results by the argument, a text or None, the last used first.
pub record KeyCachingClient (O : Type 0) : Type 0 where
  pub client : PyJwkClient
  pub cached_keys : List (Option String × PyJwk O)
  pub max_cached_keys : ℕ

abbrev pub same_kid : Option String → Option String → Bool
same_kid none none = true
same_kid (some j) (some k) = j == k
same_kid _ _ = false

module _ {ℓ} {V : Type ℓ} where
  unfoldable pub find_kid : Option String → List (Option String × V) → Option V
  find_kid kid [] = none
  find_kid kid ((j, v) ∷ keys) = if same_kid j kid then some v else find_kid kid keys

  unfoldable pub delete_kid : Option String → List (Option String × V) → List (Option String × V)
  delete_kid kid [] = []
  delete_kid kid ((j, v) ∷ keys) =
      let rest = delete_kid kid keys in if same_kid j kid then rest else (j, v) ∷ rest

module _ {O : Type 0} where
  abbrev pub init : PyJwkClient → ℕ → KeyCachingClient O
  init client max = record { client = client; cached_keys = []; max_cached_keys = max }

  -- A hit makes the entry the last used.
  abbrev pub touch :
      Option String → PyJwk O → List (Option String × PyJwk O) → List (Option String × PyJwk O)
  touch kid k keys = (kid, k) ∷ delete_kid kid keys

  -- A new entry pushes the least recently used one out of a full cache; exceptions are not cached.
  abbrev pub remember :
      ℕ
      → Option String
      → Result (PyJwk O)
      → List (Option String × PyJwk O)
      → List (Option String × PyJwk O)
  remember max kid (err e) keys = keys
  remember max kid (ok k) keys = take max ((kid, k) ∷ keys)

module _ {O : Type 0} (b : Backend O) where
  abbrev pub hit_or_call :
      Option (PyJwk O)
      → KeyCachingClient O
      → Option String
      → ℤ
      → Request
      → Request
      → Result (PyJwk O) × KeyCachingClient O
  hit_or_call (some k) c kid now first second =
      (ok k, record c { cached_keys = touch kid k c.cached_keys })
  hit_or_call none c kid now first second =
      let (res, client') = get_signing_key b c.client kid now first second in
      (
        res,
        record c {
          client = client';
          cached_keys = remember c.max_cached_keys kid res c.cached_keys;
        },
      )

  unfoldable pub get_cached_signing_key :
      KeyCachingClient O
      → Option String
      → ℤ
      → Request
      → Request
      → Result (PyJwk O) × KeyCachingClient O
  get_cached_signing_key c kid now first second =
      hit_or_call (find_kid kid c.cached_keys) c kid now first second
