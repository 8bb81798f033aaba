-- ===== src/Tests/KeyCacheTests.antt =====
-- The LRU cache over `get_signing_key` of jwt/jwks_client.py at concrete inputs.
use pyjwt.Prelude.{
  length, ◌≤◌, Bool, true, false, ◌≡◌, ◌↔◌, refl, Option, none, some, String, List, [], ◌∷◌,
}
use pyjwt.Prelude.Int.{ℤ, pos}
use pyjwt.Errors.{ok}
use pyjwt.Value.{Value, list, dict, empty, entry}
use pyjwt.Client.Cache
use pyjwt.Client.Cache.{JwkSetCache, get}
use pyjwt.Client.Fetch.{
  PyJwkClient, Request, json_value, connection_failure, other_failure, cached, make_set, keys_of,
  match_kid, get_signing_key,
}
use pyjwt.Utils.Text
use pyjwt.Utils.Text.{Text}
use pyjwt.Client.FromJwt.{get_cached_signing_key_from_jwt}
use pyjwt.Client.KeyCache
use pyjwt.Client.KeyCache.{KeyCachingClient, get_cached_signing_key}
use pyjwt.Client.KeyCacheLaws.{IsEntry, new, called, get_cached_signing_key-IsEntry}
use pyjwt.Tests.Fixtures.{backend, codec, jwt, now}
use pyjwt.Tests.KeySetTests.{octets_key}
use pyjwt.Client.CachedFromJwtLaws.{IsCachedKeyFor, get_cached_signing_key_from_jwt-IsCachedKeyFor}
use pyjwt.Tests.ClientTests.{empty_client, answered, failed, with_kid}

-- A client with a key cache, after one call.
abbrev new_cache : KeyCachingClient (Unit {0})
new_cache = KeyCache.init empty_client 2

abbrev used_cache : KeyCachingClient (Unit {0})
used_cache = (get_cached_signing_key backend new_cache (some "a") now answered failed).1

finds_again :
    (get_cached_signing_key backend used_cache (some "a") now failed failed).0 ≡ ok octets_key
unfolding pyjwt.Client.Fetch.init pyjwt.Client.Fetch.fetch_data pyjwt.Client.Fetch.signing_keys
    pyjwt.Client.Fetch.match_kid pyjwt.Client.Fetch.get_jwk_set pyjwt.Client.Fetch.get_signing_keys
    pyjwt.Client.Fetch.retry pyjwt.Client.Fetch.get_signing_key pyjwt.Client.Cache.init
    pyjwt.Client.Cache.put pyjwt.Client.Cache.is_expired pyjwt.Client.Cache.get
    pyjwt.Jwk.KeySet.make_key pyjwt.Jwk.KeySet.usable_keys pyjwt.Jwk.KeySet.init
    pyjwt.Jwk.KeySet.from_dict pyjwt.Jwk.KeySet.find_key pyjwt.Jwk.KeySet.get_item pyjwt.Jwk.init
    pyjwt.Jwk.lookup_algorithm pyjwt.Jwk.choose_algorithm pyjwt.Jwk.algorithm_for
    pyjwt.Algorithms.hmac_from_jwk pyjwt.Jws.State.init pyjwt.Jws.State.merge_sig_options
    pyjwt.Jws.State.keep_valid pyjwt.Jws.State.get_algorithm_by_name pyjwt.Prelude.Assoc.find
    pyjwt.Algorithms.get_default_algorithms pyjwt.Jws.Load.load pyjwt.Jws.Load.token_bytes
    pyjwt.Jws.Load.split_dot pyjwt.Jws.Load.rsplit_dot pyjwt.Utils.Text.force_bytes
    pyjwt.Utils.Base64.base64url_decode pyjwt.Utils.Base64.urlsafe_b64decode
    pyjwt.Utils.Base64.add_padding pyjwt.Utils.Base64.a2b_base64 pyjwt.Utils.Base64.step
    pyjwt.Utils.Base64.feed pyjwt.Utils.Base64.pad pyjwt.Utils.Base64.finish
    pyjwt.Utils.Base64.from_urlsafe pyjwt.Utils.Base64.decode_sextet pyjwt.Utils.Text.utf8
    pyjwt.Utils.Text.utf8_char pyjwt.Jws.Verify.decode_complete pyjwt.Jws.Verify.decode_loaded
    pyjwt.Jws.Verify.verify_signature pyjwt.Jws.Verify.choose pyjwt.Jws.Verify.algorithm_of_value
    pyjwt.Jws.Verify.check_key_length pyjwt.Jws.Verify.attach pyjwt.Jws.Headers.validate_headers
    pyjwt.Jws.Headers.validate_kid pyjwt.Value.lookup pyjwt.Algorithms.hmac_verify
    pyjwt.Algorithms.hmac_sign pyjwt.Algorithms.compare_digest
    pyjwt.Algorithms.check_hmac_key_length pyjwt.Algorithms.prepare_hmac_key
    pyjwt.Client.KeyCache.get_cached_signing_key pyjwt.Client.KeyCache.find_kid
    pyjwt.Client.KeyCache.delete_kid
finds_again = refl

get_cached_signing_key-IsEntry_example :
    (length used_cache.cached_keys ≤ used_cache.max_cached_keys) × IsEntry (some "a", octets_key)
get_cached_signing_key-IsEntry_example =
    get_cached_signing_key-IsEntry backend used_cache (some "a") now failed failed octets_key
      (called new_cache (some "a") now answered failed (new empty_client 2)) finds_again

-- The answer for a token, though the endpoint fails.
finds_for_token_again :
    (get_cached_signing_key_from_jwt backend codec jwt used_cache with_kid
      (pos 0)
      now
      failed
      failed).0
    ≡ ok octets_key
unfolding pyjwt.Client.Fetch.init pyjwt.Client.Fetch.fetch_data pyjwt.Client.Fetch.signing_keys
    pyjwt.Client.Fetch.match_kid pyjwt.Client.Fetch.get_jwk_set pyjwt.Client.Fetch.get_signing_keys
    pyjwt.Client.Fetch.retry pyjwt.Client.Fetch.get_signing_key pyjwt.Client.Cache.init
    pyjwt.Client.Cache.put pyjwt.Client.Cache.is_expired pyjwt.Client.Cache.get
    pyjwt.Jwk.KeySet.make_key pyjwt.Jwk.KeySet.usable_keys pyjwt.Jwk.KeySet.init
    pyjwt.Jwk.KeySet.from_dict pyjwt.Jwk.KeySet.find_key pyjwt.Jwk.KeySet.get_item pyjwt.Jwk.init
    pyjwt.Jwk.lookup_algorithm pyjwt.Jwk.choose_algorithm pyjwt.Jwk.algorithm_for
    pyjwt.Algorithms.hmac_from_jwk pyjwt.Jws.State.init pyjwt.Jws.State.merge_sig_options
    pyjwt.Jws.State.keep_valid pyjwt.Jws.State.get_algorithm_by_name pyjwt.Prelude.Assoc.find
    pyjwt.Algorithms.get_default_algorithms pyjwt.Jws.Load.load pyjwt.Jws.Load.token_bytes
    pyjwt.Jws.Load.split_dot pyjwt.Jws.Load.rsplit_dot pyjwt.Utils.Text.force_bytes
    pyjwt.Utils.Base64.base64url_decode pyjwt.Utils.Base64.urlsafe_b64decode
    pyjwt.Utils.Base64.add_padding pyjwt.Utils.Base64.a2b_base64 pyjwt.Utils.Base64.step
    pyjwt.Utils.Base64.feed pyjwt.Utils.Base64.pad pyjwt.Utils.Base64.finish
    pyjwt.Utils.Base64.from_urlsafe pyjwt.Utils.Base64.decode_sextet pyjwt.Utils.Text.utf8
    pyjwt.Utils.Text.utf8_char pyjwt.Jws.Verify.decode_complete pyjwt.Jws.Verify.decode_loaded
    pyjwt.Jws.Verify.verify_signature pyjwt.Jws.Verify.choose pyjwt.Jws.Verify.algorithm_of_value
    pyjwt.Jws.Verify.check_key_length pyjwt.Jws.Verify.attach pyjwt.Jws.Headers.validate_headers
    pyjwt.Jws.Headers.validate_kid pyjwt.Value.lookup pyjwt.Algorithms.hmac_verify
    pyjwt.Algorithms.hmac_sign pyjwt.Algorithms.compare_digest
    pyjwt.Algorithms.check_hmac_key_length pyjwt.Algorithms.prepare_hmac_key pyjwt.Jwt.Decode.init
    pyjwt.Jwt.Decode.decode_payload pyjwt.Jwt.Decode.check_decoded pyjwt.Jwt.Decode.decode_complete
    pyjwt.Jwt.Decode.decode pyjwt.Jwt.Options.override pyjwt.Jwt.Options.mutate
    pyjwt.Jwt.Options.merge_options pyjwt.Jwt.Options.turn_off pyjwt.Jwt.Claims.validate_claims
    pyjwt.Jwt.Claims.validate_required_claims pyjwt.Jwt.Claims.validate_exp
    pyjwt.Jwt.Claims.validate_iat pyjwt.Jwt.Claims.validate_nbf pyjwt.Jwt.Claims.validate_sub
    pyjwt.Jwt.Claims.validate_jti pyjwt.Jwt.Claims.validate_aud pyjwt.Jwt.Claims.check_audience
    pyjwt.Jwt.Claims.validate_iss pyjwt.Jwt.Claims.require_issuer pyjwt.Jwt.Numbers.to_int
    pyjwt.Jwt.Numbers.seconds pyjwt.Prelude.Int.◌+ℤ◌ pyjwt.Prelude.Int.◌-ℤ◌
    get_cached_signing_key_from_jwt pyjwt.Client.KeyCache.get_cached_signing_key
    pyjwt.Client.KeyCache.find_kid pyjwt.Client.KeyCache.delete_kid
finds_for_token_again = refl

get_cached_signing_key_from_jwt-IsCachedKeyFor_example :
    IsCachedKeyFor backend codec jwt with_kid octets_key
get_cached_signing_key_from_jwt-IsCachedKeyFor_example =
    get_cached_signing_key_from_jwt-IsCachedKeyFor backend codec jwt used_cache with_kid (pos 0) now
      failed failed octets_key
      (called new_cache (some "a") now answered failed (new empty_client 2)) finds_for_token_again
