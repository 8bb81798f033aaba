-- ===== src/Tests/JwtTests.antt =====
-- Tokens of jwt/api_jwt.py at concrete inputs.
use pyjwt.Prelude.{
  ℕ, Bool, true, false, ◌≡◌, ◌↔◌, sym, refl, Option, none, some, String, List, [], ◌∷◌, arith,
}
use pyjwt.Prelude.Int.{ℤ, pos, ◌≤ℤ◌}
use pyjwt.Errors.{ok, invalid_token_error}
use pyjwt.Errors.Raising.{RaisesOnly}
use pyjwt.Value.{Value, Dict, get, lookup, is_false}
use pyjwt.Utils.Text
use pyjwt.Utils.Text.{Bytes, Text}
use pyjwt.Algorithms.{no_key}
use pyjwt.Jws.Load.{Loaded, load}
use pyjwt.Jws.Headers.{validate_headers}
use pyjwt.Jws.Verify.{plain, jwk}
use pyjwt.Jwt.Options.{Options, default_options}
use pyjwt.Jwt.Claims.{validate_claims}
use pyjwt.Jwt.ClaimsSpec.{IsAcceptable}
use pyjwt.Jwt.ClaimsLaws.{validate_claims_iff, validate_claims-between}
use pyjwt.Jwt.ErrorLaws.{HasNumericTimes, validate_claims-RaisesOnly}
use pyjwt.Jwt.Decode.{decode, decode_payload, wants_signature}
use pyjwt.Jwt.Options.{signature_off, merge_options}
use pyjwt.Jwt.OptionLaws.{with_length, decode-unverified, decode-length_option}
use pyjwt.Jwt.MergeLaws.{is_on, aud, merge_options_lem}
use pyjwt.Tests.Fixtures.{key, claims, codec, jwt, token, algorithms, expected, now, none_header}

validate_claims_iff_example :
    (validate_claims claims default_options expected now ≡ ok tt)
    ↔ IsAcceptable claims default_options expected now
validate_claims_iff_example = validate_claims_iff claims default_options expected now

passes_at_zero : validate_claims claims default_options expected (pos 0) ≡ ok tt
unfolding pyjwt.Jwt.Claims.validate_claims pyjwt.Jwt.Claims.validate_required_claims
    pyjwt.Jwt.Claims.validate_exp pyjwt.Jwt.Claims.validate_iat pyjwt.Jwt.Claims.validate_nbf
    pyjwt.Jwt.Claims.validate_sub pyjwt.Jwt.Claims.validate_jti pyjwt.Jwt.Claims.validate_aud
    pyjwt.Jwt.Claims.check_audience pyjwt.Jwt.Claims.validate_iss pyjwt.Jwt.Claims.require_issuer
    pyjwt.Jwt.Numbers.to_int pyjwt.Jwt.Numbers.seconds pyjwt.Prelude.Int.◌+ℤ◌ pyjwt.Prelude.Int.◌-ℤ◌
    pyjwt.Value.lookup
passes_at_zero = refl

passes_at_19 : validate_claims claims default_options expected (pos 19_000_000) ≡ ok tt
unfolding pyjwt.Jwt.Claims.validate_claims pyjwt.Jwt.Claims.validate_required_claims
    pyjwt.Jwt.Claims.validate_exp pyjwt.Jwt.Claims.validate_iat pyjwt.Jwt.Claims.validate_nbf
    pyjwt.Jwt.Claims.validate_sub pyjwt.Jwt.Claims.validate_jti pyjwt.Jwt.Claims.validate_aud
    pyjwt.Jwt.Claims.check_audience pyjwt.Jwt.Claims.validate_iss pyjwt.Jwt.Claims.require_issuer
    pyjwt.Jwt.Numbers.to_int pyjwt.Jwt.Numbers.seconds pyjwt.Prelude.Int.◌+ℤ◌ pyjwt.Prelude.Int.◌-ℤ◌
    pyjwt.Value.lookup
passes_at_19 = refl

validate_claims-between_example : validate_claims claims default_options expected now ≡ ok tt
validate_claims-between_example =
    validate_claims-between claims default_options expected (pos 0) now (pos 19_000_000)
      (omega arith) (omega arith) passes_at_zero passes_at_19

numeric_times : HasNumericTimes claims
unfolding lookup
numeric_times = λ claim h k. ground arith

-- At time 30 the token has expired.
validate_claims-RaisesOnly_example :
    RaisesOnly invalid_token_error
      (validate_claims claims default_options expected (pos 30_000_000))
validate_claims-RaisesOnly_example =
    validate_claims-RaisesOnly claims default_options expected (pos 30_000_000) refl numeric_times

-- "bg.cA.", without a signature.
abbrev unsigned : Text
unsigned = Text.bytes (b'b' ∷ b'g' ∷ b'.' ∷ b'c' ∷ b'A' ∷ b'.' ∷ [])

abbrev unsigned_loaded : Loaded
unsigned_loaded = record {
  payload = b'p' ∷ [];
  signing_input = b'b' ∷ b'g' ∷ b'.' ∷ b'c' ∷ b'A' ∷ [];
  header = none_header;
  signature = [];
}

unsigned_loads : load codec unsigned ≡ ok unsigned_loaded
unfolding pyjwt.Jws.Load.load pyjwt.Jws.Load.token_bytes pyjwt.Jws.Load.split_dot
    pyjwt.Jws.Load.rsplit_dot pyjwt.Utils.Text.force_bytes pyjwt.Utils.Base64.base64url_decode
    pyjwt.Utils.Base64.urlsafe_b64decode pyjwt.Utils.Base64.add_padding
    pyjwt.Utils.Base64.a2b_base64 pyjwt.Utils.Base64.step pyjwt.Utils.Base64.feed
    pyjwt.Utils.Base64.pad pyjwt.Utils.Base64.finish pyjwt.Utils.Base64.from_urlsafe
    pyjwt.Utils.Base64.decode_sextet
unsigned_loads = refl

unsigned_is_valid :
    (validate_headers none_header false ≡ ok tt)
    × (is_false (get none_header "b64") ≡ false)
    × (decode_payload codec (b'p' ∷ []) ≡ ok claims)
    × (jwt.options.require ≡ [])
unfolding pyjwt.Jws.Verify.decode_complete pyjwt.Jws.Verify.decode_loaded
    pyjwt.Jws.Verify.verify_signature pyjwt.Jws.Verify.choose pyjwt.Jws.Verify.algorithm_of_value
    pyjwt.Jws.Verify.check_key_length pyjwt.Jws.Verify.attach pyjwt.Jws.Headers.validate_headers
    pyjwt.Jws.Headers.validate_kid pyjwt.Value.lookup pyjwt.Algorithms.hmac_verify
    pyjwt.Algorithms.hmac_sign pyjwt.Algorithms.compare_digest
    pyjwt.Algorithms.check_hmac_key_length pyjwt.Algorithms.prepare_hmac_key pyjwt.Jwt.Decode.init
    pyjwt.Jwt.Decode.decode_payload pyjwt.Jwt.Decode.check_decoded pyjwt.Jwt.Decode.decode_complete
    pyjwt.Jwt.Decode.decode pyjwt.Jwt.Options.override pyjwt.Jwt.Options.mutate
    pyjwt.Jwt.Options.merge_options pyjwt.Jwt.Options.turn_off
unsigned_is_valid = (refl, refl, refl, refl)

decode-unverified_example :
    decode false codec jwt unsigned (plain no_key) none (some signature_off) none none expected now
    ≡ ok claims
decode-unverified_example =
    let (headers, attached, payload, require) = unsigned_is_valid in
    decode-unverified false codec jwt unsigned (plain no_key) none none none expected now
      unsigned_loaded claims unsigned_loads headers attached payload refl require

decode-length_option_example :
    decode false codec jwt token
      (plain key)
      algorithms
      (some (with_length signature_off (some true)))
      none
      none
      expected
      now
    ≡ decode false codec jwt token
        (plain key)
        algorithms
        (some signature_off)
        none
        none
        expected
        now
decode-length_option_example =
    decode-length_option false codec jwt token (plain key) algorithms signature_off (some true) none
      none expected now

-- "verify_aud" is not given.
merge_options_lem_example :
    (is_on aud (merge_options default_options (some signature_off)).0 ≡ false)
    × ((merge_options default_options (merge_options default_options (some signature_off)).1).0
        ≡ (merge_options default_options (some signature_off)).0)
merge_options_lem_example = merge_options_lem default_options signature_off aud
