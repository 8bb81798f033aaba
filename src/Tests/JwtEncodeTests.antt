-- ===== src/Tests/JwtEncodeTests.antt =====
-- `encode` and `decode` of jwt/api_jwt.py at a concrete input.
use mathlib.Core.Path.{subst}
use pyjwt.Prelude.{
  Bool, true, false, ◌≡◌, refl, inl, Option, none, some, String, List, [], ◌∷◌, arith,
}
use pyjwt.Errors.{ok}
use pyjwt.Errors.Bind.{ok-injective}
use pyjwt.Value.{Value, Dict, str, dict, datetime, empty, entry}
use pyjwt.Utils.Text.{Bytes, IsBytes}
use pyjwt.Jws.Verify.{plain}
use pyjwt.Jws.Encode.{named}
use pyjwt.Jwt.Options.{merge_options}
use pyjwt.Jwt.Claims.{validate_claims}
use pyjwt.Jwt.Decode.{decode}
use pyjwt.Jwt.Encode.{encode}
use pyjwt.Jwt.TimeClaims.{AreWritten, none_left, one_more, time, as_it_is}
use pyjwt.Value.DictLaws.{IsUnique}
use pyjwt.Prelude.Int.{pos}
use pyjwt.Jwt.RoundTrip.{ClaimsReadBack, decode-encode}
use pyjwt.Tests.Fixtures.{
  hs256, key, header, claims, codec, jwt, token, algorithms, expected, now, weak_key,
}
use pyjwt.Tests.SigningTests.{encoded, hs256_named, reads_header, keys_match}

-- The claims with "exp" as a time half a second after 20.
abbrev dated_claims : Dict
dated_claims =
    entry "sub" (str "ann")
      (entry "exp" (datetime (pos 20_500_000)) (entry "aud" (str "web") empty))

dated_claims-IsUnique : IsUnique dated_claims
unfolding pyjwt.Value.lookup
dated_claims-IsUnique = (refl, (refl, (refl, tt)))

dated_claims-AreWritten : AreWritten dated_claims claims
dated_claims-AreWritten = one_more "sub" (as_it_is (str "ann") (inl refl)) (
    one_more "exp" (time (pos 20_500_000) (pos 20) refl (omega arith, omega arith))
      (one_more "aud" (as_it_is (str "web") (inl refl)) none_left))

claims_read_back : ClaimsReadBack false codec jwt claims claims
unfolding pyjwt.Jwt.Encode.encode pyjwt.Jwt.Encode.encode_dict pyjwt.Jwt.Encode.convert_times
    pyjwt.Jwt.Encode.timegm pyjwt.Jws.Verify.decode_complete pyjwt.Jws.Verify.decode_loaded
    pyjwt.Jws.Verify.verify_signature pyjwt.Jws.Verify.choose pyjwt.Jws.Verify.algorithm_of_value
    pyjwt.Jws.Verify.check_key_length pyjwt.Jws.Verify.attach pyjwt.Jws.Headers.validate_headers
    pyjwt.Jws.Headers.validate_kid pyjwt.Value.lookup pyjwt.Algorithms.hmac_verify
    pyjwt.Algorithms.hmac_sign pyjwt.Algorithms.compare_digest
    pyjwt.Algorithms.check_hmac_key_length pyjwt.Algorithms.prepare_hmac_key
claims_read_back = record {
  are_bytes = λ bs h. subst IsBytes (ok-injective h) (omega arith, tt);
  reads = λ bs h. subst (λ (x : Bytes). codec.loads x ≡ ok (dict claims)) (ok-injective h) refl;
}

claims-encode :
    encode false codec jwt (dict dated_claims) (plain key) (named "HS256") (some empty) false
    ≡ ok encoded
unfolding pyjwt.Jwt.Encode.encode pyjwt.Jwt.Encode.encode_dict pyjwt.Jwt.Encode.convert_times
    pyjwt.Jwt.Encode.timegm pyjwt.Jwt.Decode.init pyjwt.Jwt.Decode.decode_payload
    pyjwt.Jwt.Decode.check_decoded pyjwt.Jwt.Decode.decode_complete pyjwt.Jwt.Decode.decode
    pyjwt.Jwt.Options.override pyjwt.Jwt.Options.mutate pyjwt.Jwt.Options.merge_options
    pyjwt.Jwt.Options.turn_off pyjwt.Jws.State.init pyjwt.Jws.State.merge_sig_options
    pyjwt.Jws.State.keep_valid pyjwt.Jws.State.get_algorithm_by_name pyjwt.Prelude.Assoc.find
    pyjwt.Algorithms.get_default_algorithms pyjwt.Jws.Verify.decode_complete
    pyjwt.Jws.Verify.decode_loaded pyjwt.Jws.Verify.verify_signature pyjwt.Jws.Verify.choose
    pyjwt.Jws.Verify.algorithm_of_value pyjwt.Jws.Verify.check_key_length pyjwt.Jws.Verify.attach
    pyjwt.Jws.Headers.validate_headers pyjwt.Jws.Headers.validate_kid pyjwt.Value.lookup
    pyjwt.Algorithms.hmac_verify pyjwt.Algorithms.hmac_sign pyjwt.Algorithms.compare_digest
    pyjwt.Algorithms.check_hmac_key_length pyjwt.Algorithms.prepare_hmac_key
    pyjwt.Utils.KeyFormats.is_pem_format pyjwt.Utils.KeyFormats.search_in pyjwt.Utils.KeyFormats.any
    pyjwt.Utils.KeyFormats.pem_at pyjwt.Utils.KeyFormats.boundary pyjwt.Utils.KeyFormats.literal
    pyjwt.Utils.KeyFormats.is_ssh_key pyjwt.Utils.KeyFormats.starts_with pyjwt.Jws.Load.load
    pyjwt.Jws.Load.token_bytes pyjwt.Jws.Load.split_dot pyjwt.Jws.Load.rsplit_dot
    pyjwt.Utils.Text.force_bytes pyjwt.Utils.Base64.base64url_decode
    pyjwt.Utils.Base64.urlsafe_b64decode pyjwt.Utils.Base64.add_padding
    pyjwt.Utils.Base64.a2b_base64 pyjwt.Utils.Base64.step pyjwt.Utils.Base64.feed
    pyjwt.Utils.Base64.pad pyjwt.Utils.Base64.finish pyjwt.Utils.Base64.from_urlsafe
    pyjwt.Utils.Base64.decode_sextet pyjwt.Jws.Encode.encode pyjwt.Jws.Encode.sign_segments
    pyjwt.Jws.Encode.make_header pyjwt.Value.set pyjwt.Value.update pyjwt.Value.remove
    pyjwt.Utils.Base64.base64url_encode pyjwt.Utils.Base64.b2a_base64
    pyjwt.Utils.Base64.strip_padding pyjwt.Utils.Base64.to_urlsafe pyjwt.Utils.Base64.encode_sextet
claims-encode = refl

claims_pass : validate_claims claims (merge_options jwt.options none).0 expected now ≡ ok tt
unfolding pyjwt.Jwt.Claims.validate_claims pyjwt.Jwt.Claims.validate_required_claims
    pyjwt.Jwt.Claims.validate_exp pyjwt.Jwt.Claims.validate_iat pyjwt.Jwt.Claims.validate_nbf
    pyjwt.Jwt.Claims.validate_sub pyjwt.Jwt.Claims.validate_jti pyjwt.Jwt.Claims.validate_aud
    pyjwt.Jwt.Claims.check_audience pyjwt.Jwt.Claims.validate_iss pyjwt.Jwt.Claims.require_issuer
    pyjwt.Jwt.Numbers.to_int pyjwt.Jwt.Numbers.seconds pyjwt.Prelude.Int.◌+ℤ◌ pyjwt.Prelude.Int.◌-ℤ◌
    pyjwt.Value.lookup pyjwt.Jwt.Decode.init pyjwt.Jwt.Decode.decode_payload
    pyjwt.Jwt.Decode.check_decoded pyjwt.Jwt.Decode.decode_complete pyjwt.Jwt.Decode.decode
    pyjwt.Jwt.Options.override pyjwt.Jwt.Options.mutate pyjwt.Jwt.Options.merge_options
    pyjwt.Jwt.Options.turn_off
claims_pass = refl

decode-encode_example :
    decode false codec jwt token (plain key) algorithms none none none expected now ≡ ok claims
unfolding pyjwt.Jwt.Decode.init pyjwt.Jwt.Decode.decode_payload pyjwt.Jwt.Decode.check_decoded
    pyjwt.Jwt.Decode.decode_complete pyjwt.Jwt.Decode.decode pyjwt.Jwt.Options.override
    pyjwt.Jwt.Options.mutate pyjwt.Jwt.Options.merge_options pyjwt.Jwt.Options.turn_off
    pyjwt.Jws.State.init pyjwt.Jws.State.merge_sig_options pyjwt.Jws.State.keep_valid
    pyjwt.Jws.State.get_algorithm_by_name pyjwt.Prelude.Assoc.find
    pyjwt.Algorithms.get_default_algorithms pyjwt.Jws.Verify.decode_complete
    pyjwt.Jws.Verify.decode_loaded pyjwt.Jws.Verify.verify_signature pyjwt.Jws.Verify.choose
    pyjwt.Jws.Verify.algorithm_of_value pyjwt.Jws.Verify.check_key_length pyjwt.Jws.Verify.attach
    pyjwt.Jws.Headers.validate_headers pyjwt.Jws.Headers.validate_kid pyjwt.Value.lookup
    pyjwt.Algorithms.hmac_verify pyjwt.Algorithms.hmac_sign pyjwt.Algorithms.compare_digest
    pyjwt.Algorithms.check_hmac_key_length pyjwt.Algorithms.prepare_hmac_key
decode-encode_example =
    decode-encode false codec jwt dated_claims claims claims empty header "HS256" false key key
      encoded ("HS256" ∷ []) none none expected now hs256 weak_key dated_claims-IsUnique
      dated_claims-AreWritten tt refl refl refl refl refl hs256_named keys_match reads_header
      claims_read_back refl claims_pass claims-encode
