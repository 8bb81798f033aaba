-- ===== src/Client/CachedFromJwtLaws.antt =====
-- Which key `get_signing_key_from_jwt` of jwt/jwks_client.py returns from a client with `cache_keys`.
use mathlib.Core.Path.{subst}
use pyjwt.Prelude.{false, ◌≡◌, refl, sym}
use pyjwt.Prelude.Int.{ℤ}
use pyjwt.Errors.{Result, ok, err}
use pyjwt.Value.{Dict, get}
use pyjwt.Utils.Text.{Text}
use pyjwt.Algorithms.{Backend}
use pyjwt.Jwk.{PyJwk}
use pyjwt.Jws.Load.{Json, Loaded, load}
use pyjwt.Jws.Headers.{validate_headers}
use pyjwt.Jwt.Decode.{PyJwt, DecodedJwt}
use pyjwt.Client.Fetch.{Request}
use pyjwt.Client.FromJwt.{kid_of, unverified, cached_key_of_header, get_cached_signing_key_from_jwt}
use pyjwt.Client.FromJwtLaws.{jwt-header}
use pyjwt.Client.KeyCache.{KeyCachingClient, get_cached_signing_key}
use pyjwt.Client.KeyCacheLaws.{IsEntry, Reached, get_cached_signing_key-IsEntry}

module _ {O : Type 0} (b : Backend O) (json : Json) (jwt : PyJwt O) where
  -- The token that was read, and a signing key under the "kid" of its header.
  pub record IsCachedKeyFor (token : Text) (k : PyJwk O) : Type 0 where
    pub loaded : Loaded
    pub is_loaded : load json token ≡ ok loaded
    pub headers_valid : validate_headers loaded.header false ≡ ok tt
    pub is_entry : IsEntry (kid_of (get loaded.header "kid"), k)

  cached_key_of_header-eq-ok :
      (r : Result DecodedJwt) (c : KeyCachingClient O) (now : ℤ) (first second : Request)
      (k : PyJwk O)
      → (cached_key_of_header b json jwt r c now first second).0 ≡ ok k
      → (d : DecodedJwt) × (r ≡ ok d)
        × ((get_cached_signing_key b c (kid_of (get d.header "kid")) now first second).0 ≡ ok k)
  cached_key_of_header-eq-ok (err e) c now first second k h = cc
  cached_key_of_header-eq-ok (ok d) c now first second k h = (d, refl, h)

  -- Whatever calls filled the key cache, a key that `get_signing_key_from_jwt` returns, cached or
  -- not, belongs to a token that was loaded with valid headers: it is a signing key with the "kid" of
  -- its header. It need not be of the set that the endpoint serves now.
  pub get_cached_signing_key_from_jwt-IsCachedKeyFor :
      (c : KeyCachingClient O) (token : Text) (clock now : ℤ) (first second : Request) (k : PyJwk O)
      → Reached b c
      → (get_cached_signing_key_from_jwt b json jwt c token clock now first second).0 ≡ ok k
      → IsCachedKeyFor token k
  unfolding get_cached_signing_key_from_jwt
  get_cached_signing_key_from_jwt-IsCachedKeyFor c token clock now first second k reached h =
      let (d, e, h1) =
        cached_key_of_header-eq-ok (unverified b json jwt token clock) c now first second k h in
      let (_, entry) = get_cached_signing_key-IsEntry b c _ now first second k reached h1 in
      let r = jwt-header b.has_crypto json jwt token _ _ _ _ _ _ clock d e in
      record {
        loaded = r.loaded;
        is_loaded = r.is_loaded;
        headers_valid = r.headers_valid;
        is_entry = subst (λ (x : Dict). IsEntry (kid_of (get x "kid"), k)) (sym r.same) entry;
      }
