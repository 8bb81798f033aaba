-- ===== src/Tests/KeySetTests.antt =====
-- Keys and key sets of jwt/api_jwk.py at concrete inputs.
use pyjwt.Prelude.{Bool, true, false, ◌≡◌, ◌↔◌, refl, Option, none, some, String, List, [], ◌∷◌}
use pyjwt.Errors.{ok}
use pyjwt.Value.{Value, Dict, Items, str, dict, nil, cons, empty, entry}
use pyjwt.Utils.Text
use pyjwt.Algorithms.{Key, secret}
use pyjwt.Jwk
use pyjwt.Jwk.{PyJwk}
use pyjwt.Jwk.InitLaws.{IsMadeFrom, init_iff}
use pyjwt.Jwk.KeySet.{PyJwkSet, usable_keys}
use pyjwt.Jwk.KeySetLaws.{Usable, usable_keys_iff}
use pyjwt.Tests.Fixtures.{backend, hs256}

-- The secret "s", with the id "a".
abbrev pub octets : Dict
octets = entry "kty" (str "oct") (entry "k" (str "cw") (entry "kid" (str "a") empty))

-- A type that no algorithm has.
abbrev pub unsupported : Dict
unsupported = entry "kty" (str "odd") empty

abbrev pub octets_key : PyJwk (Unit {0})
octets_key = record {
  jwk_data = octets;
  algorithm_name = "HS256";
  algorithm = hs256;
  key = secret (Text.bytes (b's' ∷ []));
}

octets_make_key : Jwk.init backend octets none ≡ ok octets_key
unfolding pyjwt.Jwk.init pyjwt.Jwk.lookup_algorithm pyjwt.Jwk.choose_algorithm
    pyjwt.Jwk.algorithm_for pyjwt.Algorithms.hmac_from_jwk pyjwt.Jws.State.init
    pyjwt.Jws.State.merge_sig_options pyjwt.Jws.State.keep_valid
    pyjwt.Jws.State.get_algorithm_by_name pyjwt.Prelude.Assoc.find
    pyjwt.Algorithms.get_default_algorithms pyjwt.Jws.Load.load pyjwt.Jws.Load.token_bytes
    pyjwt.Jws.Load.split_dot pyjwt.Jws.Load.rsplit_dot pyjwt.Utils.Text.force_bytes
    pyjwt.Utils.Base64.base64url_decode pyjwt.Utils.Base64.urlsafe_b64decode
    pyjwt.Utils.Base64.add_padding pyjwt.Utils.Base64.a2b_base64 pyjwt.Utils.Base64.step
    pyjwt.Utils.Base64.feed pyjwt.Utils.Base64.pad pyjwt.Utils.Base64.finish
    pyjwt.Utils.Base64.from_urlsafe pyjwt.Utils.Base64.decode_sextet pyjwt.Utils.Text.utf8
    pyjwt.Utils.Text.utf8_char pyjwt.Jws.Verify.decode_complete pyjwt.Jws.Verify.decode_loaded
    pyjwt.Jws.Verify.verify_signature pyjwt.Jws.Verify.choose pyjwt.Jws.Verify.algorithm_of_value
    pyjwt.Jws.Verify.check_key_length pyjwt.Jws.Verify.attach pyjwt.Jws.Headers.validate_headers
    pyjwt.Jws.Headers.validate_kid pyjwt.Value.lookup pyjwt.Algorithms.hmac_verify
    pyjwt.Algorithms.hmac_sign pyjwt.Algorithms.compare_digest
    pyjwt.Algorithms.check_hmac_key_length pyjwt.Algorithms.prepare_hmac_key
octets_make_key = refl

init_iff_example :
    (Jwk.init backend octets none ≡ ok octets_key) ↔ IsMadeFrom backend octets none octets_key
init_iff_example = init_iff backend octets none octets_key

abbrev pub values : Items
values = cons (dict unsupported) (cons (dict octets) nil)

-- The first value is passed over.
usable_keys_iff_example :
    (usable_keys backend values ≡ ok (octets_key ∷ [])) ↔ Usable backend values (octets_key ∷ [])
usable_keys_iff_example = usable_keys_iff backend values (octets_key ∷ [])

abbrev pub key_set : PyJwkSet (Unit {0})
key_set = record { keys = octets_key ∷ [] }
