-- ===== src/Tests/ClientTests.antt =====
-- The client and its cache, of jwt/jwks_client.py and jwt/jwk_set_cache.py, at concrete inputs.
use pyjwt.Prelude.{
  length, ◌≤◌, Bool, true, false, ◌≡◌, ◌↔◌, refl, Option, none, some, String, List, [], ◌∷◌,
}
use pyjwt.Prelude.Int.{ℤ, pos}
use pyjwt.Errors.{Error, ok, err, json_decode_error}
use pyjwt.Value.{Value, list, dict, empty, entry}
use pyjwt.Client.Cache
use pyjwt.Client.Cache.{JwkSetCache, get}
use pyjwt.Client.CacheLaws.{IsFresh, put_all, last_put, get-put_all}
use pyjwt.Client.Fetch.{
  PyJwkClient, Request, json_value, connection_failure, other_failure, cached, make_set, keys_of,
  match_kid, get_signing_key,
}
use pyjwt.Client.FetchLaws.{IsSource, IsFound, get_signing_key-IsFound}
use pyjwt.Client.OutageLaws.{get_signing_key-outage}
use pyjwt.Utils.Text
use pyjwt.Utils.Text.{Text}
use pyjwt.Client.FromJwt.{get_signing_key_from_jwt}
use pyjwt.Client.FromJwtLaws.{IsKeyFor, get_signing_key_from_jwt-IsKeyFor}
use pyjwt.Tests.Fixtures.{backend, codec, jwt, now}
use pyjwt.Tests.KeySetTests.{octets_key, values}

-- A lifespan of 300 seconds, a set put at 0, one cleared.
get-put_all_example :
    (get
        (put_all ((some true, pos 0) ∷ (some false, pos 5) ∷ []) (Cache.init (pos 300_000_000)))
        now
      ≡ some false)
    ↔ ((t : ℤ) × (last_put ((some true, pos 0) ∷ (some false, pos 5) ∷ []) ≡ some (some false, t))
        × IsFresh (pos 300_000_000) t now)
get-put_all_example =
    get-put_all ((some true, pos 0) ∷ (some false, pos 5) ∷ []) (pos 300_000_000) now false

abbrev data_value : Value
data_value = dict (entry "keys" (list values) empty)

abbrev client : PyJwkClient
client = record {
  jwk_set_cache = some (record {
    jwk_set_with_timestamp = some (record { jwk_set = data_value; timestamp = pos 0 });
    lifespan = pos 300_000_000;
  });
}

abbrev pub empty_client : PyJwkClient
empty_client = record { jwk_set_cache = none }

abbrev pub answered : Request
answered = record { response = json_value data_value; finished = pos 11_000_000 }

abbrev pub failed : Request
failed = record { response = connection_failure; finished = pos 11_000_000 }

finds : (get_signing_key backend empty_client (some "a") now answered failed).0 ≡ ok octets_key
unfolding pyjwt.Client.Fetch.init pyjwt.Client.Fetch.fetch_data pyjwt.Client.Fetch.signing_keys
    pyjwt.Client.Fetch.match_kid pyjwt.Client.Fetch.get_jwk_set pyjwt.Client.Fetch.get_signing_keys
    pyjwt.Client.Fetch.retry pyjwt.Client.Fetch.get_signing_key pyjwt.Client.Cache.init
    pyjwt.Client.Cache.put pyjwt.Client.Cache.is_expired pyjwt.Client.Cache.get
    pyjwt.Jwk.KeySet.make_key pyjwt.Jwk.KeySet.usable_keys pyjwt.Jwk.KeySet.init
    pyjwt.Jwk.KeySet.from_dict pyjwt.Jwk.KeySet.find_key pyjwt.Jwk.KeySet.get_item pyjwt.Jwk.init
    pyjwt.Jwk.lookup_algorithm pyjwt.Jwk.choose_algorithm pyjwt.Jwk.algorithm_for
    pyjwt.Algorithms.hmac_from_jwk pyjwt.Jws.State.init pyjwt.Jws.State.merge_sig_options
    pyjwt.Jws.State.keep_valid pyjwt.Jws.State.get_algorithm_by_name pyjwt.Prelude.Assoc.find
    pyjwt.Algorithms.get_default_algorithms pyjwt.Jws.Load.load pyjwt.Jws.Load.token_bytes
    pyjwt.Jws.Load.split_dot pyjwt.Jws.Load.rsplit_dot pyjwt.Utils.Text.force_bytes
    pyjwt.Utils.Base64.base64url_decode pyjwt.Utils.Base64.urlsafe_b64decode
    pyjwt.Utils.Base64.add_padding pyjwt.Utils.Base64.a2b_base64 pyjwt.Utils.Base64.step
    pyjwt.Utils.Base64.feed pyjwt.Utils.Base64.pad pyjwt.Utils.Base64.finish
    pyjwt.Utils.Base64.from_urlsafe pyjwt.Utils.Base64.decode_sextet pyjwt.Utils.Text.utf8
    pyjwt.Utils.Text.utf8_char pyjwt.Jws.Verify.decode_complete pyjwt.Jws.Verify.decode_loaded
    pyjwt.Jws.Verify.verify_signature pyjwt.Jws.Verify.choose pyjwt.Jws.Verify.algorithm_of_value
    pyjwt.Jws.Verify.check_key_length pyjwt.Jws.Verify.attach pyjwt.Jws.Headers.validate_headers
    pyjwt.Jws.Headers.validate_kid pyjwt.Value.lookup pyjwt.Algorithms.hmac_verify
    pyjwt.Algorithms.hmac_sign pyjwt.Algorithms.compare_digest
    pyjwt.Algorithms.check_hmac_key_length pyjwt.Algorithms.prepare_hmac_key
finds = refl

get_signing_key-IsFound_example :
    (v : Value) × IsSource empty_client now answered failed v
    × IsFound backend v (some "a") octets_key
get_signing_key-IsFound_example =
    get_signing_key-IsFound backend empty_client (some "a") now answered failed octets_key finds

is_cached : cached client.jwk_set_cache false now ≡ some data_value
unfolding pyjwt.Client.Fetch.init pyjwt.Client.Fetch.fetch_data pyjwt.Client.Fetch.signing_keys
    pyjwt.Client.Fetch.match_kid pyjwt.Client.Fetch.get_jwk_set pyjwt.Client.Fetch.get_signing_keys
    pyjwt.Client.Fetch.retry pyjwt.Client.Fetch.get_signing_key pyjwt.Client.Cache.init
    pyjwt.Client.Cache.put pyjwt.Client.Cache.is_expired pyjwt.Client.Cache.get
    pyjwt.Prelude.Int.◌+ℤ◌
is_cached = refl

cached_keys : keys_of (make_set backend (ok data_value)) ≡ ok (octets_key ∷ [])
unfolding pyjwt.Client.Fetch.init pyjwt.Client.Fetch.fetch_data pyjwt.Client.Fetch.signing_keys
    pyjwt.Client.Fetch.match_kid pyjwt.Client.Fetch.get_jwk_set pyjwt.Client.Fetch.get_signing_keys
    pyjwt.Client.Fetch.retry pyjwt.Client.Fetch.get_signing_key pyjwt.Client.Cache.init
    pyjwt.Client.Cache.put pyjwt.Client.Cache.is_expired pyjwt.Client.Cache.get
    pyjwt.Jwk.KeySet.make_key pyjwt.Jwk.KeySet.usable_keys pyjwt.Jwk.KeySet.init
    pyjwt.Jwk.KeySet.from_dict pyjwt.Jwk.KeySet.find_key pyjwt.Jwk.KeySet.get_item pyjwt.Jwk.init
    pyjwt.Jwk.lookup_algorithm pyjwt.Jwk.choose_algorithm pyjwt.Jwk.algorithm_for
    pyjwt.Algorithms.hmac_from_jwk pyjwt.Jws.State.init pyjwt.Jws.State.merge_sig_options
    pyjwt.Jws.State.keep_valid pyjwt.Jws.State.get_algorithm_by_name pyjwt.Prelude.Assoc.find
    pyjwt.Algorithms.get_default_algorithms pyjwt.Jws.Load.load pyjwt.Jws.Load.token_bytes
    pyjwt.Jws.Load.split_dot pyjwt.Jws.Load.rsplit_dot pyjwt.Utils.Text.force_bytes
    pyjwt.Utils.Base64.base64url_decode pyjwt.Utils.Base64.urlsafe_b64decode
    pyjwt.Utils.Base64.add_padding pyjwt.Utils.Base64.a2b_base64 pyjwt.Utils.Base64.step
    pyjwt.Utils.Base64.feed pyjwt.Utils.Base64.pad pyjwt.Utils.Base64.finish
    pyjwt.Utils.Base64.from_urlsafe pyjwt.Utils.Base64.decode_sextet pyjwt.Utils.Text.utf8
    pyjwt.Utils.Text.utf8_char pyjwt.Jws.Verify.decode_complete pyjwt.Jws.Verify.decode_loaded
    pyjwt.Jws.Verify.verify_signature pyjwt.Jws.Verify.choose pyjwt.Jws.Verify.algorithm_of_value
    pyjwt.Jws.Verify.check_key_length pyjwt.Jws.Verify.attach pyjwt.Jws.Headers.validate_headers
    pyjwt.Jws.Headers.validate_kid pyjwt.Value.lookup pyjwt.Algorithms.hmac_verify
    pyjwt.Algorithms.hmac_sign pyjwt.Algorithms.compare_digest
    pyjwt.Algorithms.check_hmac_key_length pyjwt.Algorithms.prepare_hmac_key
cached_keys = refl

matches : match_kid (octets_key ∷ []) (some "a") ≡ some octets_key
unfolding pyjwt.Client.Fetch.init pyjwt.Client.Fetch.fetch_data pyjwt.Client.Fetch.signing_keys
    pyjwt.Client.Fetch.match_kid pyjwt.Client.Fetch.get_jwk_set pyjwt.Client.Fetch.get_signing_keys
    pyjwt.Client.Fetch.retry pyjwt.Client.Fetch.get_signing_key pyjwt.Client.Cache.init
    pyjwt.Client.Cache.put pyjwt.Client.Cache.is_expired pyjwt.Client.Cache.get
    pyjwt.Jws.Verify.decode_complete pyjwt.Jws.Verify.decode_loaded
    pyjwt.Jws.Verify.verify_signature pyjwt.Jws.Verify.choose pyjwt.Jws.Verify.algorithm_of_value
    pyjwt.Jws.Verify.check_key_length pyjwt.Jws.Verify.attach pyjwt.Jws.Headers.validate_headers
    pyjwt.Jws.Headers.validate_kid pyjwt.Value.lookup pyjwt.Algorithms.hmac_verify
    pyjwt.Algorithms.hmac_sign pyjwt.Algorithms.compare_digest
    pyjwt.Algorithms.check_hmac_key_length pyjwt.Algorithms.prepare_hmac_key
matches = refl

matches_not : match_kid (octets_key ∷ []) (some "b") ≡ none
unfolding pyjwt.Client.Fetch.init pyjwt.Client.Fetch.fetch_data pyjwt.Client.Fetch.signing_keys
    pyjwt.Client.Fetch.match_kid pyjwt.Client.Fetch.get_jwk_set pyjwt.Client.Fetch.get_signing_keys
    pyjwt.Client.Fetch.retry pyjwt.Client.Fetch.get_signing_key pyjwt.Client.Cache.init
    pyjwt.Client.Cache.put pyjwt.Client.Cache.is_expired pyjwt.Client.Cache.get
    pyjwt.Jws.Verify.decode_complete pyjwt.Jws.Verify.decode_loaded
    pyjwt.Jws.Verify.verify_signature pyjwt.Jws.Verify.choose pyjwt.Jws.Verify.algorithm_of_value
    pyjwt.Jws.Verify.check_key_length pyjwt.Jws.Verify.attach pyjwt.Jws.Headers.validate_headers
    pyjwt.Jws.Headers.validate_kid pyjwt.Value.lookup pyjwt.Algorithms.hmac_verify
    pyjwt.Algorithms.hmac_sign pyjwt.Algorithms.compare_digest
    pyjwt.Algorithms.check_hmac_key_length pyjwt.Algorithms.prepare_hmac_key
matches_not = refl

abbrev broken : Error
broken = record { cls = json_decode_error; message = "Expecting value" }

abbrev not_json : Request
not_json = record { response = other_failure broken; finished = pos 11_000_000 }

get_signing_key-outage_example :
    ((get_signing_key backend client (some "b") now failed not_json).0 ≡ err broken)
    × (cached
          (get_signing_key backend client (some "b") now failed not_json).1.jwk_set_cache
          false
          (pos 12_000_000)
        ≡ none)
get_signing_key-outage_example =
    get_signing_key-outage backend client (some "b") now data_value failed not_json
      (octets_key ∷ []) broken (pos 12_000_000) is_cached cached_keys matches_not refl

-- "aw.cA.", whose header has the "kid" "a".
abbrev pub with_kid : Text
with_kid = Text.bytes (b'a' ∷ b'w' ∷ b'.' ∷ b'c' ∷ b'A' ∷ b'.' ∷ [])

finds_for_token :
    (get_signing_key_from_jwt backend codec jwt empty_client with_kid (pos 0) now answered failed).0
    ≡ ok octets_key
unfolding pyjwt.Client.Fetch.init pyjwt.Client.Fetch.fetch_data pyjwt.Client.Fetch.signing_keys
    pyjwt.Client.Fetch.match_kid pyjwt.Client.Fetch.get_jwk_set pyjwt.Client.Fetch.get_signing_keys
    pyjwt.Client.Fetch.retry pyjwt.Client.Fetch.get_signing_key pyjwt.Client.Cache.init
    pyjwt.Client.Cache.put pyjwt.Client.Cache.is_expired pyjwt.Client.Cache.get
    pyjwt.Jwk.KeySet.make_key pyjwt.Jwk.KeySet.usable_keys pyjwt.Jwk.KeySet.init
    pyjwt.Jwk.KeySet.from_dict pyjwt.Jwk.KeySet.find_key pyjwt.Jwk.KeySet.get_item pyjwt.Jwk.init
    pyjwt.Jwk.lookup_algorithm pyjwt.Jwk.choose_algorithm pyjwt.Jwk.algorithm_for
    pyjwt.Algorithms.hmac_from_jwk pyjwt.Jws.State.init pyjwt.Jws.State.merge_sig_options
    pyjwt.Jws.State.keep_valid pyjwt.Jws.State.get_algorithm_by_name pyjwt.Prelude.Assoc.find
    pyjwt.Algorithms.get_default_algorithms pyjwt.Jws.Load.load pyjwt.Jws.Load.token_bytes
    pyjwt.Jws.Load.split_dot pyjwt.Jws.Load.rsplit_dot pyjwt.Utils.Text.force_bytes
    pyjwt.Utils.Base64.base64url_decode pyjwt.Utils.Base64.urlsafe_b64decode
    pyjwt.Utils.Base64.add_padding pyjwt.Utils.Base64.a2b_base64 pyjwt.Utils.Base64.step
    pyjwt.Utils.Base64.feed pyjwt.Utils.Base64.pad pyjwt.Utils.Base64.finish
    pyjwt.Utils.Base64.from_urlsafe pyjwt.Utils.Base64.decode_sextet pyjwt.Utils.Text.utf8
    pyjwt.Utils.Text.utf8_char pyjwt.Jws.Verify.decode_complete pyjwt.Jws.Verify.decode_loaded
    pyjwt.Jws.Verify.verify_signature pyjwt.Jws.Verify.choose pyjwt.Jws.Verify.algorithm_of_value
    pyjwt.Jws.Verify.check_key_length pyjwt.Jws.Verify.attach pyjwt.Jws.Headers.validate_headers
    pyjwt.Jws.Headers.validate_kid pyjwt.Value.lookup pyjwt.Algorithms.hmac_verify
    pyjwt.Algorithms.hmac_sign pyjwt.Algorithms.compare_digest
    pyjwt.Algorithms.check_hmac_key_length pyjwt.Algorithms.prepare_hmac_key pyjwt.Jwt.Decode.init
    pyjwt.Jwt.Decode.decode_payload pyjwt.Jwt.Decode.check_decoded pyjwt.Jwt.Decode.decode_complete
    pyjwt.Jwt.Decode.decode pyjwt.Jwt.Options.override pyjwt.Jwt.Options.mutate
    pyjwt.Jwt.Options.merge_options pyjwt.Jwt.Options.turn_off pyjwt.Jwt.Claims.validate_claims
    pyjwt.Jwt.Claims.validate_required_claims pyjwt.Jwt.Claims.validate_exp
    pyjwt.Jwt.Claims.validate_iat pyjwt.Jwt.Claims.validate_nbf pyjwt.Jwt.Claims.validate_sub
    pyjwt.Jwt.Claims.validate_jti pyjwt.Jwt.Claims.validate_aud pyjwt.Jwt.Claims.check_audience
    pyjwt.Jwt.Claims.validate_iss pyjwt.Jwt.Claims.require_issuer pyjwt.Jwt.Numbers.to_int
    pyjwt.Jwt.Numbers.seconds pyjwt.Prelude.Int.◌+ℤ◌ pyjwt.Prelude.Int.◌-ℤ◌ get_signing_key_from_jwt
finds_for_token = refl

get_signing_key_from_jwt-IsKeyFor_example :
    IsKeyFor backend codec jwt empty_client with_kid now answered failed octets_key
get_signing_key_from_jwt-IsKeyFor_example =
    get_signing_key_from_jwt-IsKeyFor backend codec jwt empty_client with_kid (pos 0) now answered
      failed octets_key finds_for_token
