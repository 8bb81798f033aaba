-- ===== src/Client/FromJwt.antt =====
-- `PyJWKClient.get_signing_key_from_jwt` of jwt/jwks_client.py, which decodes the token with the
-- module-level `PyJWT` of jwt/api_jwt.py: with `get_signing_key` itself, and with the LRU cache over
-- it that `cache_keys` puts in its place.
use pyjwt.Prelude.{Option, none, some, String, []}
use pyjwt.Prelude.Int.{ℤ, pos}
use pyjwt.Errors.{Result, ok, err}
use pyjwt.Value.{Value, str, get}
use pyjwt.Utils.Text.{Text}
use pyjwt.Algorithms.{Backend, secret}
use pyjwt.Jwk.{PyJwk}
use pyjwt.Jws.Load.{Json}
use pyjwt.Jws.Verify.{plain}
use pyjwt.Jwt.Options.{signature_off}
use pyjwt.Jwt.Claims.{Expected, number}
use pyjwt.Jwt.Claims
use pyjwt.Jwt.Decode.{PyJwt, DecodedJwt, decode_complete}
use pyjwt.Client.Fetch.{PyJwkClient, Request, get_signing_key}
use pyjwt.Client.KeyCache.{KeyCachingClient, get_cached_signing_key}

-- The default arguments of `decode_complete`.
abbrev pub nothing_expected : Expected
nothing_expected = record {
  audience = Claims.Audience.unspecified;
  issuer = Claims.Issuer.unspecified;
  subject = none;
  leeway = number (pos 0);
}

-- header.get("kid"), which is a text or missing in a header that `decode_complete` returns.
abbrev pub kid_of : Value → Option String
kid_of (str kid) = some kid
kid_of _ = none

module _ {O : Type 0} (b : Backend O) (json : Json) (jwt : PyJwt O) where
  abbrev pub unverified : Text → ℤ → Result DecodedJwt
  unverified token now =
      decode_complete b.has_crypto json jwt token (plain (secret (Text.str []))) none
        (some signature_off) none none nothing_expected now

  abbrev pub key_of_header :
      Result DecodedJwt → PyJwkClient → ℤ → Request → Request → Result (PyJwk O) × PyJwkClient
  key_of_header (err e) client now first second = (err e, client)
  key_of_header (ok d) client now first second =
      get_signing_key b client (kid_of (get d.header "kid")) now first second

  -- `clock` is the time of day that the claims check reads, `now` the monotonic time of the cache.
  unfoldable pub get_signing_key_from_jwt :
      PyJwkClient → Text → ℤ → ℤ → Request → Request → Result (PyJwk O) × PyJwkClient
  get_signing_key_from_jwt client token clock now first second =
      key_of_header (unverified token clock) client now first second

  abbrev pub cached_key_of_header :
      Result DecodedJwt
      → KeyCachingClient O
      → ℤ
      → Request
      → Request
      → Result (PyJwk O) × KeyCachingClient O
  cached_key_of_header (err e) client now first second = (err e, client)
  cached_key_of_header (ok d) client now first second =
      get_cached_signing_key b client (kid_of (get d.header "kid")) now first second

  -- The same for a client with `cache_keys`.
  unfoldable pub get_cached_signing_key_from_jwt :
      KeyCachingClient O → Text → ℤ → ℤ → Request → Request → Result (PyJwk O) × KeyCachingClient O
  get_cached_signing_key_from_jwt client token clock now first second =
      cached_key_of_header (unverified token clock) client now first second
