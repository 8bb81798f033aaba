-- ===== src/Tests/SigningTests.antt =====
-- Signing and verifying again, at concrete inputs.
use mathlib.Core.Path.{subst}
use pyjwt.Prelude.{
  ℕ, Bool, true, false, ◌≡◌, sym, refl, Option, none, some, String, List, [], ◌∷◌, arith,
}
use pyjwt.Errors.{ok}
use pyjwt.Errors.Bind.{ok-injective}
use pyjwt.Value.{Value, Dict, str, dict, empty, entry}
use pyjwt.Value.DictLaws.{SameEntries}
use pyjwt.Utils.Text
use pyjwt.Utils.Text.{Bytes, IsBytes}
use pyjwt.Algorithms.{Key, secret, sha256, hmac_sign}
use pyjwt.Algorithms.HmacLaws.{hmac_verify-hmac_sign}
use pyjwt.Jws.State.{get_algorithm_by_name}
use pyjwt.Jws.Verify.{plain, Decoded, decode_complete}
use pyjwt.Jws.Encode.{Encoded, named, make_header, encode}
use pyjwt.Jws.Matching.{KeysMatch, ReadsBack}
use pyjwt.Jws.RoundTrip.{decode_complete-encode}
use pyjwt.Tests.Fixtures.{
  digest, hs256, key, header, codec, jws, token_bytes, token, algorithms, weak_key,
}
use pyjwt.Tests.JwsTests.{verifies}

abbrev pub encoded : Encoded
encoded = record { token = token_bytes; warnings = weak_key }

pub hs256_named : get_algorithm_by_name false jws "HS256" ≡ ok hs256
unfolding pyjwt.Jws.State.init pyjwt.Jws.State.merge_sig_options pyjwt.Jws.State.keep_valid
    pyjwt.Jws.State.get_algorithm_by_name pyjwt.Prelude.Assoc.find
    pyjwt.Algorithms.get_default_algorithms
hs256_named = refl

pub reads_header : ReadsBack codec (make_header (str "HS256") empty false) header false
unfolding pyjwt.Jws.Encode.encode pyjwt.Jws.Encode.sign_segments pyjwt.Jws.Encode.make_header
    pyjwt.Value.set pyjwt.Value.update pyjwt.Value.remove pyjwt.Utils.Base64.base64url_encode
    pyjwt.Utils.Base64.b2a_base64 pyjwt.Utils.Base64.strip_padding pyjwt.Utils.Base64.to_urlsafe
    pyjwt.Utils.Base64.encode_sextet pyjwt.Jws.Load.load pyjwt.Jws.Load.token_bytes
    pyjwt.Jws.Load.split_dot pyjwt.Jws.Load.rsplit_dot pyjwt.Utils.Text.force_bytes
    pyjwt.Utils.Base64.base64url_decode pyjwt.Utils.Base64.urlsafe_b64decode
    pyjwt.Utils.Base64.add_padding pyjwt.Utils.Base64.a2b_base64 pyjwt.Utils.Base64.step
    pyjwt.Utils.Base64.feed pyjwt.Utils.Base64.pad pyjwt.Utils.Base64.finish
    pyjwt.Utils.Base64.from_urlsafe pyjwt.Utils.Base64.decode_sextet
    pyjwt.Jws.Verify.decode_complete pyjwt.Jws.Verify.decode_loaded
    pyjwt.Jws.Verify.verify_signature pyjwt.Jws.Verify.choose pyjwt.Jws.Verify.algorithm_of_value
    pyjwt.Jws.Verify.check_key_length pyjwt.Jws.Verify.attach pyjwt.Jws.Headers.validate_headers
    pyjwt.Jws.Headers.validate_kid pyjwt.Value.lookup pyjwt.Algorithms.hmac_verify
    pyjwt.Algorithms.hmac_sign pyjwt.Algorithms.compare_digest
    pyjwt.Algorithms.check_hmac_key_length pyjwt.Algorithms.prepare_hmac_key
reads_header = record {
  same = λ k. refl;
  are_bytes = λ bs h. subst IsBytes (ok-injective h) (omega arith, tt);
  reads = λ bs h. subst (λ (x : Bytes). codec.loads x ≡ ok (dict header)) (ok-injective h) refl;
}

-- The key that `prepare_key` leaves is the key itself.
signed_by_key :
    (k : Key (Unit {0})) (msg sig : Bytes)
    → hs256.prepare_key key ≡ ok k
    → hs256.sign msg k ≡ ok sig
    → hmac_sign digest sha256 msg key ≡ ok sig
unfolding pyjwt.Jws.Verify.decode_complete pyjwt.Jws.Verify.decode_loaded
    pyjwt.Jws.Verify.verify_signature pyjwt.Jws.Verify.choose pyjwt.Jws.Verify.algorithm_of_value
    pyjwt.Jws.Verify.check_key_length pyjwt.Jws.Verify.attach pyjwt.Jws.Headers.validate_headers
    pyjwt.Jws.Headers.validate_kid pyjwt.Value.lookup pyjwt.Algorithms.hmac_verify
    pyjwt.Algorithms.hmac_sign pyjwt.Algorithms.compare_digest
    pyjwt.Algorithms.check_hmac_key_length pyjwt.Algorithms.prepare_hmac_key
    pyjwt.Utils.KeyFormats.is_pem_format pyjwt.Utils.KeyFormats.search_in pyjwt.Utils.KeyFormats.any
    pyjwt.Utils.KeyFormats.pem_at pyjwt.Utils.KeyFormats.boundary pyjwt.Utils.KeyFormats.literal
    pyjwt.Utils.KeyFormats.is_ssh_key pyjwt.Utils.KeyFormats.starts_with pyjwt.Jws.Load.load
    pyjwt.Jws.Load.token_bytes pyjwt.Jws.Load.split_dot pyjwt.Jws.Load.rsplit_dot
    pyjwt.Utils.Text.force_bytes pyjwt.Utils.Base64.base64url_decode
    pyjwt.Utils.Base64.urlsafe_b64decode pyjwt.Utils.Base64.add_padding
    pyjwt.Utils.Base64.a2b_base64 pyjwt.Utils.Base64.step pyjwt.Utils.Base64.feed
    pyjwt.Utils.Base64.pad pyjwt.Utils.Base64.finish pyjwt.Utils.Base64.from_urlsafe
    pyjwt.Utils.Base64.decode_sextet
signed_by_key k msg sig p s =
    subst (λ (x : Key (Unit {0})). hmac_sign digest sha256 msg x ≡ ok sig) (sym (ok-injective p)) s

signed_bytes : (msg sig : Bytes) → hmac_sign digest sha256 msg key ≡ ok sig → IsBytes sig
unfolding hmac_sign
signed_bytes msg sig s = subst IsBytes (ok-injective s) (omega arith, (omega arith, tt))

pub keys_match : KeysMatch jws hs256 key key weak_key
unfolding pyjwt.Jws.State.init pyjwt.Jws.State.merge_sig_options pyjwt.Jws.State.keep_valid
    pyjwt.Jws.State.get_algorithm_by_name pyjwt.Prelude.Assoc.find
    pyjwt.Algorithms.get_default_algorithms pyjwt.Jws.Verify.decode_complete
    pyjwt.Jws.Verify.decode_loaded pyjwt.Jws.Verify.verify_signature pyjwt.Jws.Verify.choose
    pyjwt.Jws.Verify.algorithm_of_value pyjwt.Jws.Verify.check_key_length pyjwt.Jws.Verify.attach
    pyjwt.Jws.Headers.validate_headers pyjwt.Jws.Headers.validate_kid pyjwt.Value.lookup
    pyjwt.Algorithms.hmac_verify pyjwt.Algorithms.hmac_sign pyjwt.Algorithms.compare_digest
    pyjwt.Algorithms.check_hmac_key_length pyjwt.Algorithms.prepare_hmac_key
    pyjwt.Utils.KeyFormats.is_pem_format pyjwt.Utils.KeyFormats.search_in pyjwt.Utils.KeyFormats.any
    pyjwt.Utils.KeyFormats.pem_at pyjwt.Utils.KeyFormats.boundary pyjwt.Utils.KeyFormats.literal
    pyjwt.Utils.KeyFormats.is_ssh_key pyjwt.Utils.KeyFormats.starts_with pyjwt.Jws.Load.load
    pyjwt.Jws.Load.token_bytes pyjwt.Jws.Load.split_dot pyjwt.Jws.Load.rsplit_dot
    pyjwt.Utils.Text.force_bytes pyjwt.Utils.Base64.base64url_decode
    pyjwt.Utils.Base64.urlsafe_b64decode pyjwt.Utils.Base64.add_padding
    pyjwt.Utils.Base64.a2b_base64 pyjwt.Utils.Base64.step pyjwt.Utils.Base64.feed
    pyjwt.Utils.Base64.pad pyjwt.Utils.Base64.finish pyjwt.Utils.Base64.from_urlsafe
    pyjwt.Utils.Base64.decode_sextet
keys_match = record {
  prepared = key;
  prepares = refl;
  is_long = refl;
  are_bytes = λ k msg sig p s. signed_bytes msg sig (signed_by_key k msg sig p s);
  accepts = λ k msg sig p s.
      (hmac_verify-hmac_sign (Unit {0}) digest sha256 msg (b's' ∷ []) sig).1
        (signed_by_key k msg sig p s);
}

claims-encode :
    encode false codec jws (b'p' ∷ []) (plain key) (named "HS256") (some empty) false false
    ≡ ok encoded
unfolding pyjwt.Jws.State.init pyjwt.Jws.State.merge_sig_options pyjwt.Jws.State.keep_valid
    pyjwt.Jws.State.get_algorithm_by_name pyjwt.Prelude.Assoc.find
    pyjwt.Algorithms.get_default_algorithms pyjwt.Jws.Verify.decode_complete
    pyjwt.Jws.Verify.decode_loaded pyjwt.Jws.Verify.verify_signature pyjwt.Jws.Verify.choose
    pyjwt.Jws.Verify.algorithm_of_value pyjwt.Jws.Verify.check_key_length pyjwt.Jws.Verify.attach
    pyjwt.Jws.Headers.validate_headers pyjwt.Jws.Headers.validate_kid pyjwt.Value.lookup
    pyjwt.Algorithms.hmac_verify pyjwt.Algorithms.hmac_sign pyjwt.Algorithms.compare_digest
    pyjwt.Algorithms.check_hmac_key_length pyjwt.Algorithms.prepare_hmac_key
    pyjwt.Utils.KeyFormats.is_pem_format pyjwt.Utils.KeyFormats.search_in pyjwt.Utils.KeyFormats.any
    pyjwt.Utils.KeyFormats.pem_at pyjwt.Utils.KeyFormats.boundary pyjwt.Utils.KeyFormats.literal
    pyjwt.Utils.KeyFormats.is_ssh_key pyjwt.Utils.KeyFormats.starts_with pyjwt.Jws.Load.load
    pyjwt.Jws.Load.token_bytes pyjwt.Jws.Load.split_dot pyjwt.Jws.Load.rsplit_dot
    pyjwt.Utils.Text.force_bytes pyjwt.Utils.Base64.base64url_decode
    pyjwt.Utils.Base64.urlsafe_b64decode pyjwt.Utils.Base64.add_padding
    pyjwt.Utils.Base64.a2b_base64 pyjwt.Utils.Base64.step pyjwt.Utils.Base64.feed
    pyjwt.Utils.Base64.pad pyjwt.Utils.Base64.finish pyjwt.Utils.Base64.from_urlsafe
    pyjwt.Utils.Base64.decode_sextet pyjwt.Jws.Encode.encode pyjwt.Jws.Encode.sign_segments
    pyjwt.Jws.Encode.make_header pyjwt.Value.set pyjwt.Value.update pyjwt.Value.remove
    pyjwt.Utils.Base64.base64url_encode pyjwt.Utils.Base64.b2a_base64
    pyjwt.Utils.Base64.strip_padding pyjwt.Utils.Base64.to_urlsafe pyjwt.Utils.Base64.encode_sextet
claims-encode = refl

decode_complete-encode_example :
    (d : Decoded) × (decode_complete false codec jws token (plain key) algorithms none none ≡ ok d)
    × (d.payload ≡ (b'p' ∷ []))
    × SameEntries d.header (make_header (str "HS256") empty false)
    × (d.warnings ≡ weak_key)
unfolding pyjwt.Value.lookup
decode_complete-encode_example =
    decode_complete-encode false codec jws (b'p' ∷ []) empty header "HS256" false key key encoded
      ("HS256" ∷ []) none hs256 weak_key tt refl refl refl refl refl (omega arith, tt) hs256_named
      keys_match reads_header verifies claims-encode
