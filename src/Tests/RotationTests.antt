-- ===== src/Tests/RotationTests.antt =====
-- A key rotation at the endpoint of jwt/jwks_client.py.
use pyjwt.Prelude.{false, true, ◌≡◌, refl, none, some, [], ◌∷◌}
use pyjwt.Prelude.Int.{pos}
use pyjwt.Errors.{ok}
use pyjwt.Value.{Value, Dict, str, list, dict, empty, entry, nil, cons}
use pyjwt.Utils.Text
use pyjwt.Algorithms.{secret}
use pyjwt.Jwk.{PyJwk}
use pyjwt.Jwk.KeySet.{PyJwkSet}
use pyjwt.Client.Cache.{JwkSetCache}
use pyjwt.Client.Fetch.{
  PyJwkClient, Request, json_value, connection_failure, cached, make_set, keys_of, match_kid,
  get_signing_key,
}
use pyjwt.Client.FetchLaws.{IsMatch, here, there}
use pyjwt.Client.RotationLaws.{get_signing_key-rotated}
use pyjwt.Tests.Fixtures.{backend, hs256, now}
use pyjwt.Tests.KeySetTests.{octets, octets_key}

-- The new key, with the id "b".
abbrev new_octets : Dict
new_octets = entry "kty" (str "oct") (entry "k" (str "cw") (entry "kid" (str "b") empty))

abbrev new_key : PyJwk (Unit {0})
new_key = record {
  jwk_data = new_octets;
  algorithm_name = "HS256";
  algorithm = hs256;
  key = secret (Text.bytes (b's' ∷ []));
}

abbrev old_data : Value
old_data = dict (entry "keys" (list (cons (dict octets) nil)) empty)

abbrev new_data : Dict
new_data = entry "keys" (list (cons (dict octets) (cons (dict new_octets) nil))) empty

abbrev cache : JwkSetCache Value
cache = record {
  jwk_set_with_timestamp = some (record { jwk_set = old_data; timestamp = pos 0 });
  lifespan = pos 300_000_000;
}

abbrev client : PyJwkClient
client = record { jwk_set_cache = some cache }

abbrev unused : Request
unused = record { response = connection_failure; finished = pos 11_000_000 }

abbrev new_set : PyJwkSet (Unit {0})
new_set = record { keys = octets_key ∷ new_key ∷ [] }

is_cached : cached client.jwk_set_cache false now ≡ some old_data
unfolding pyjwt.Client.Fetch.init pyjwt.Client.Fetch.fetch_data pyjwt.Client.Fetch.signing_keys
    pyjwt.Client.Fetch.match_kid pyjwt.Client.Fetch.get_jwk_set pyjwt.Client.Fetch.get_signing_keys
    pyjwt.Client.Fetch.retry pyjwt.Client.Fetch.get_signing_key pyjwt.Client.Cache.init
    pyjwt.Client.Cache.put pyjwt.Client.Cache.is_expired pyjwt.Client.Cache.get
    pyjwt.Jwt.Claims.validate_claims pyjwt.Jwt.Claims.validate_required_claims
    pyjwt.Jwt.Claims.validate_exp pyjwt.Jwt.Claims.validate_iat pyjwt.Jwt.Claims.validate_nbf
    pyjwt.Jwt.Claims.validate_sub pyjwt.Jwt.Claims.validate_jti pyjwt.Jwt.Claims.validate_aud
    pyjwt.Jwt.Claims.check_audience pyjwt.Jwt.Claims.validate_iss pyjwt.Jwt.Claims.require_issuer
    pyjwt.Jwt.Numbers.to_int pyjwt.Jwt.Numbers.seconds pyjwt.Prelude.Int.◌+ℤ◌ pyjwt.Prelude.Int.◌-ℤ◌
    pyjwt.Value.lookup
is_cached = refl

old_keys : keys_of (make_set backend (ok old_data)) ≡ ok (octets_key ∷ [])
unfolding pyjwt.Client.Fetch.init pyjwt.Client.Fetch.fetch_data pyjwt.Client.Fetch.signing_keys
    pyjwt.Client.Fetch.match_kid pyjwt.Client.Fetch.get_jwk_set pyjwt.Client.Fetch.get_signing_keys
    pyjwt.Client.Fetch.retry pyjwt.Client.Fetch.get_signing_key pyjwt.Client.Cache.init
    pyjwt.Client.Cache.put pyjwt.Client.Cache.is_expired pyjwt.Client.Cache.get
    pyjwt.Jwk.KeySet.make_key pyjwt.Jwk.KeySet.usable_keys pyjwt.Jwk.KeySet.init
    pyjwt.Jwk.KeySet.from_dict pyjwt.Jwk.KeySet.find_key pyjwt.Jwk.KeySet.get_item pyjwt.Jwk.init
    pyjwt.Jwk.lookup_algorithm pyjwt.Jwk.choose_algorithm pyjwt.Jwk.algorithm_for
    pyjwt.Algorithms.hmac_from_jwk pyjwt.Jws.State.init pyjwt.Jws.State.merge_sig_options
    pyjwt.Jws.State.keep_valid pyjwt.Jws.State.get_algorithm_by_name pyjwt.Prelude.Assoc.find
    pyjwt.Algorithms.get_default_algorithms pyjwt.Jws.Load.load pyjwt.Jws.Load.token_bytes
    pyjwt.Jws.Load.split_dot pyjwt.Jws.Load.rsplit_dot pyjwt.Utils.Text.force_bytes
    pyjwt.Utils.Base64.base64url_decode pyjwt.Utils.Base64.urlsafe_b64decode
    pyjwt.Utils.Base64.add_padding pyjwt.Utils.Base64.a2b_base64 pyjwt.Utils.Base64.step
    pyjwt.Utils.Base64.feed pyjwt.Utils.Base64.pad pyjwt.Utils.Base64.finish
    pyjwt.Utils.Base64.from_urlsafe pyjwt.Utils.Base64.decode_sextet pyjwt.Utils.Text.utf8
    pyjwt.Utils.Text.utf8_char pyjwt.Jws.Verify.decode_complete pyjwt.Jws.Verify.decode_loaded
    pyjwt.Jws.Verify.verify_signature pyjwt.Jws.Verify.choose pyjwt.Jws.Verify.algorithm_of_value
    pyjwt.Jws.Verify.check_key_length pyjwt.Jws.Verify.attach pyjwt.Jws.Headers.validate_headers
    pyjwt.Jws.Headers.validate_kid pyjwt.Value.lookup pyjwt.Algorithms.hmac_verify
    pyjwt.Algorithms.hmac_sign pyjwt.Algorithms.compare_digest
    pyjwt.Algorithms.check_hmac_key_length pyjwt.Algorithms.prepare_hmac_key
old_keys = refl

no_match : match_kid (octets_key ∷ []) (some "b") ≡ none
unfolding pyjwt.Client.Fetch.init pyjwt.Client.Fetch.fetch_data pyjwt.Client.Fetch.signing_keys
    pyjwt.Client.Fetch.match_kid pyjwt.Client.Fetch.get_jwk_set pyjwt.Client.Fetch.get_signing_keys
    pyjwt.Client.Fetch.retry pyjwt.Client.Fetch.get_signing_key pyjwt.Client.Cache.init
    pyjwt.Client.Cache.put pyjwt.Client.Cache.is_expired pyjwt.Client.Cache.get
    pyjwt.Jws.Verify.decode_complete pyjwt.Jws.Verify.decode_loaded
    pyjwt.Jws.Verify.verify_signature pyjwt.Jws.Verify.choose pyjwt.Jws.Verify.algorithm_of_value
    pyjwt.Jws.Verify.check_key_length pyjwt.Jws.Verify.attach pyjwt.Jws.Headers.validate_headers
    pyjwt.Jws.Headers.validate_kid pyjwt.Value.lookup pyjwt.Algorithms.hmac_verify
    pyjwt.Algorithms.hmac_sign pyjwt.Algorithms.compare_digest
    pyjwt.Algorithms.check_hmac_key_length pyjwt.Algorithms.prepare_hmac_key
no_match = refl

new_keys : make_set backend (ok (dict new_data)) ≡ ok new_set
unfolding pyjwt.Client.Fetch.init pyjwt.Client.Fetch.fetch_data pyjwt.Client.Fetch.signing_keys
    pyjwt.Client.Fetch.match_kid pyjwt.Client.Fetch.get_jwk_set pyjwt.Client.Fetch.get_signing_keys
    pyjwt.Client.Fetch.retry pyjwt.Client.Fetch.get_signing_key pyjwt.Client.Cache.init
    pyjwt.Client.Cache.put pyjwt.Client.Cache.is_expired pyjwt.Client.Cache.get
    pyjwt.Jwk.KeySet.make_key pyjwt.Jwk.KeySet.usable_keys pyjwt.Jwk.KeySet.init
    pyjwt.Jwk.KeySet.from_dict pyjwt.Jwk.KeySet.find_key pyjwt.Jwk.KeySet.get_item pyjwt.Jwk.init
    pyjwt.Jwk.lookup_algorithm pyjwt.Jwk.choose_algorithm pyjwt.Jwk.algorithm_for
    pyjwt.Algorithms.hmac_from_jwk pyjwt.Jws.State.init pyjwt.Jws.State.merge_sig_options
    pyjwt.Jws.State.keep_valid pyjwt.Jws.State.get_algorithm_by_name pyjwt.Prelude.Assoc.find
    pyjwt.Algorithms.get_default_algorithms pyjwt.Jws.Load.load pyjwt.Jws.Load.token_bytes
    pyjwt.Jws.Load.split_dot pyjwt.Jws.Load.rsplit_dot pyjwt.Utils.Text.force_bytes
    pyjwt.Utils.Base64.base64url_decode pyjwt.Utils.Base64.urlsafe_b64decode
    pyjwt.Utils.Base64.add_padding pyjwt.Utils.Base64.a2b_base64 pyjwt.Utils.Base64.step
    pyjwt.Utils.Base64.feed pyjwt.Utils.Base64.pad pyjwt.Utils.Base64.finish
    pyjwt.Utils.Base64.from_urlsafe pyjwt.Utils.Base64.decode_sextet pyjwt.Utils.Text.utf8
    pyjwt.Utils.Text.utf8_char pyjwt.Jws.Verify.decode_complete pyjwt.Jws.Verify.decode_loaded
    pyjwt.Jws.Verify.verify_signature pyjwt.Jws.Verify.choose pyjwt.Jws.Verify.algorithm_of_value
    pyjwt.Jws.Verify.check_key_length pyjwt.Jws.Verify.attach pyjwt.Jws.Headers.validate_headers
    pyjwt.Jws.Headers.validate_kid pyjwt.Value.lookup pyjwt.Algorithms.hmac_verify
    pyjwt.Algorithms.hmac_sign pyjwt.Algorithms.compare_digest
    pyjwt.Algorithms.check_hmac_key_length pyjwt.Algorithms.prepare_hmac_key
new_keys = refl

get_signing_key-rotated_example :
    (j : PyJwk (Unit {0})) × (client' : PyJwkClient) × (get_signing_key backend client
        (some "b")
        now
        unused
        (record { response = json_value (dict new_data); finished = pos 11_000_000 })
      ≡ (ok j, client'))
    × IsMatch new_set.keys (some "b") j
    × (cached client'.jwk_set_cache false (pos 11_000_000) ≡ some (dict new_data))
unfolding pyjwt.Value.lookup
get_signing_key-rotated_example =
    get_signing_key-rotated backend client cache (some "b") now (pos 11_000_000) unused old_data
      (octets_key ∷ []) new_data new_set new_key refl refl is_cached old_keys no_match new_keys refl
      refl (there here)
