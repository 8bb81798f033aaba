-- ===== src/Tests/JwsTests.antt =====
-- Messages of jwt/api_jws.py at concrete inputs.
use pyjwt.Prelude.{
  ℕ, Bool, true, false, ◌≡◌, ◌≢◌, refl, Option, none, some, String, List, [], ◌∷◌, arith,
}
use pyjwt.Prelude.Assoc.{find}
use pyjwt.Errors.{ok}
use pyjwt.Value.{Value, Dict, str, dict, empty, entry, lookup}
use pyjwt.Utils.Text
use pyjwt.Utils.Text.{Bytes, IsBytes, Text}
use pyjwt.Algorithms.{Key, secret, Hash, Backend, sha256, none_algorithm}
use pyjwt.Jws.State
use pyjwt.Jws.State.{PyJws}
use pyjwt.Jws.Verify.{KeyArg, plain, Decoded, decode_complete}
use pyjwt.Jws.Security.{IsAuthentic, decode_complete-hmac, decode_complete-none}
use pyjwt.Jws.VerifyLaws.{IsSound, decode_complete-IsSound}
use pyjwt.Tests.Fixtures.{digest, hs256, key, header, codec, jws, token, algorithms, weak_key}

abbrev pub decoded : Decoded
decoded = record {
  payload = b'p' ∷ [];
  header = header;
  signature = 1 ∷ 5 ∷ [];
  warnings = weak_key;
}

pub token_decodes :
    decode_complete false codec jws token (plain key) algorithms none none ≡ ok decoded
unfolding pyjwt.Jws.State.init pyjwt.Jws.State.merge_sig_options pyjwt.Jws.State.keep_valid
    pyjwt.Jws.State.get_algorithm_by_name pyjwt.Prelude.Assoc.find
    pyjwt.Algorithms.get_default_algorithms pyjwt.Jws.Load.load pyjwt.Jws.Load.token_bytes
    pyjwt.Jws.Load.split_dot pyjwt.Jws.Load.rsplit_dot pyjwt.Utils.Text.force_bytes
    pyjwt.Utils.Base64.base64url_decode pyjwt.Utils.Base64.urlsafe_b64decode
    pyjwt.Utils.Base64.add_padding pyjwt.Utils.Base64.a2b_base64 pyjwt.Utils.Base64.step
    pyjwt.Utils.Base64.feed pyjwt.Utils.Base64.pad pyjwt.Utils.Base64.finish
    pyjwt.Utils.Base64.from_urlsafe pyjwt.Utils.Base64.decode_sextet
    pyjwt.Jws.Verify.decode_complete pyjwt.Jws.Verify.decode_loaded
    pyjwt.Jws.Verify.verify_signature pyjwt.Jws.Verify.choose pyjwt.Jws.Verify.algorithm_of_value
    pyjwt.Jws.Verify.check_key_length pyjwt.Jws.Verify.attach pyjwt.Jws.Headers.validate_headers
    pyjwt.Jws.Headers.validate_kid pyjwt.Value.lookup pyjwt.Algorithms.hmac_verify
    pyjwt.Algorithms.hmac_sign pyjwt.Algorithms.compare_digest
    pyjwt.Algorithms.check_hmac_key_length pyjwt.Algorithms.prepare_hmac_key
    pyjwt.Utils.KeyFormats.is_pem_format pyjwt.Utils.KeyFormats.search_in pyjwt.Utils.KeyFormats.any
    pyjwt.Utils.KeyFormats.pem_at pyjwt.Utils.KeyFormats.boundary pyjwt.Utils.KeyFormats.literal
    pyjwt.Utils.KeyFormats.is_ssh_key pyjwt.Utils.KeyFormats.starts_with
token_decodes = refl

pub verifies : (State.merge_sig_options jws.options none).verify_signature ≡ true
unfolding pyjwt.Jws.State.init pyjwt.Jws.State.merge_sig_options pyjwt.Jws.State.keep_valid
    pyjwt.Jws.State.get_algorithm_by_name pyjwt.Prelude.Assoc.find
    pyjwt.Algorithms.get_default_algorithms
verifies = refl

decode_complete-IsSound_example : IsSound false jws codec token (plain key) algorithms none decoded
decode_complete-IsSound_example =
    decode_complete-IsSound false jws codec token (plain key) algorithms none none decoded verifies
      token_decodes

hs256_found : find "HS256" jws.algorithms ≡ some hs256
unfolding pyjwt.Jws.State.init pyjwt.Jws.State.merge_sig_options pyjwt.Jws.State.keep_valid
    pyjwt.Jws.State.get_algorithm_by_name pyjwt.Prelude.Assoc.find
    pyjwt.Algorithms.get_default_algorithms
hs256_found = refl

none_found : find "none" jws.algorithms ≡ some none_algorithm
unfolding pyjwt.Jws.State.init pyjwt.Jws.State.merge_sig_options pyjwt.Jws.State.keep_valid
    pyjwt.Jws.State.get_algorithm_by_name pyjwt.Prelude.Assoc.find
    pyjwt.Algorithms.get_default_algorithms
none_found = refl

names_hs256 : lookup "alg" decoded.header ≡ some (str "HS256")
unfolding lookup
names_hs256 = refl

decode_complete-hmac_example : IsAuthentic false jws codec (digest sha256) token key none decoded
decode_complete-hmac_example =
    decode_complete-hmac false jws digest sha256 "HS256" codec token key algorithms none none
      decoded verifies hs256_found names_hs256 token_decodes

decode_complete-none_example : lookup "alg" decoded.header ≢ some (str "none")
decode_complete-none_example =
    decode_complete-none false jws codec token key algorithms none none decoded verifies none_found
      token_decodes
