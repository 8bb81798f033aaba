-- ===== src/Jwt/RoundTrip.antt =====
-- `PyJWT.decode` of jwt/api_jwt.py on what `PyJWT.encode` returns.
use mathlib.Core.Path.{subst}
use pyjwt.Prelude.{
  Bool, true, false, ◌≡◌, ap, ◌∙◌, Option, none, some, String, List, ◌==◌, is_in, not, ◌&&◌,
}
use pyjwt.Prelude.Int.{ℤ}
use pyjwt.Errors.{ok, type_error}
use pyjwt.Errors.Bind.{>>=-eq-ok, raise_if-eq-ok}
use pyjwt.Value.{Value, Dict, dict, lookup, has, get, is_str}
use pyjwt.Value.DictLaws.{IsUnique}
use pyjwt.Utils.Text
use pyjwt.Utils.Text.{Bytes, IsBytes}
use pyjwt.Algorithms.{Algorithm, Key}
use pyjwt.Jws.State.{get_algorithm_by_name}
use pyjwt.Jws.Load.{Json}
use pyjwt.Jws.Verify
use pyjwt.Jws.Verify.{plain, Warning, Decoded}
use pyjwt.Jws.Encode as JwsEncode
use pyjwt.Jws.Encode.{named, Encoded}
use pyjwt.Jws.Matching.{ReadsBack, KeysMatch}
use pyjwt.Jws.RoundTrip.{decode_complete-encode}
use pyjwt.Jwt.Options.{Options, merge_options}
use pyjwt.Jwt.Claims.{Expected, validate_claims}
use pyjwt.Jwt.Decode.{
  PyJwt, decode_payload, wants_signature, sig_options, check_decoded, decode_complete, decode,
}
use pyjwt.Jwt.Encode.{convert_times, time_claims, encode_dict}
use pyjwt.Jwt.Encode as JwtEncode
use pyjwt.Jwt.DecodeLaws.{verify_sig_options}
use pyjwt.Jwt.TimeClaims.{AreWritten}
use pyjwt.Jwt.TimeClaimsLaws.{convert_times-AreWritten}

module _ {O : Type 0} (has_crypto : Bool) (json : Json) (jwt : PyJwt O) where
  -- `json` reads the claims back that it wrote.
  pub record ClaimsReadBack (payload payload' : Dict) : Type 0 where
    pub are_bytes : (bs : Bytes) → json.dumps false (dict payload) ≡ ok bs → IsBytes bs
    pub reads :
        (bs : Bytes) → json.dumps false (dict payload) ≡ ok bs → json.loads bs ≡ ok (dict payload')

  -- `encode` wrote the claims, and signed them.
  encode-eq-ok :
      (payload given : Dict) (key : Key O) (name : String) (sort_headers : Bool) (e : Encoded)
      → JwtEncode.encode has_crypto json jwt
          (dict payload)
          (plain key)
          (named name)
          (some given)
          sort_headers
        ≡ ok e
      → (bs : Bytes) × (json.dumps false (dict (convert_times time_claims payload)) ≡ ok bs)
        × (JwsEncode.encode has_crypto json jwt.jws bs
              (plain key)
              (named name)
              (some given)
              false
              sort_headers
            ≡ ok e)
  unfolding JwtEncode.encode encode_dict
  encode-eq-ok payload given key name sort_headers e h =
      let c = convert_times time_claims payload in
      let (_, h1) = raise_if-eq-ok (has c "iss" && not (is_str (get c "iss"))) type_error _ _ h in
      >>=-eq-ok (json.dumps false (dict c)) _ h1

  decode_payload-eq-ok :
      (bs : Bytes) (d : Dict) → json.loads bs ≡ ok (dict d) → decode_payload json bs ≡ ok d
  unfolding decode_payload
  decode_payload-eq-ok bs d h = rw h

  decode-accepts :
      (token : Text.Text) (key : Key O) (algs : List String) (options : Option Options)
      (verify : Option Bool) (expected : Expected) (now : ℤ) (d : Decoded) (payload : Dict)
      → Verify.decode_complete has_crypto json jwt.jws token
          (plain key)
          (some algs)
          (some (sig_options (wants_signature options)))
          none
        ≡ ok d
      → decode_payload json d.payload ≡ ok payload
      → validate_claims payload (merge_options jwt.options options).0 expected now ≡ ok tt
      → decode has_crypto json jwt token (plain key) (some algs) options verify none expected now
        ≡ ok payload
  unfolding decode decode_complete check_decoded
  decode-accepts token key algs options verify expected now d payload e1 e2 e3 = rw (e1, e2, e3)

  -- A token that `encode` makes of claims, each once, with a named algorithm and headers without
  -- "alg", "b64" and "crit" and with each key once, decodes with verification on under a matching
  -- key and an algorithm list that has the name: to what `json` reads back of the claims as they
  -- are written, if that passes validation at that time. They are written with "exp", "iat" and "nbf"
  -- that are datetimes as the last whole second not after them, and all else as it is. `json` reads
  -- back the header, and the handler accepts under the second key what it signs under the first.
  pub decode-encode :
      (payload written payload' given header' : Dict) (name : String) (sort_headers : Bool)
      (sign_key verify_key : Key O) (e : Encoded) (algs : List String) (options : Option Options)
      (verify : Option Bool) (expected : Expected) (now : ℤ) (handler : Algorithm O)
      (ws : List Warning)
      → IsUnique payload
      → AreWritten payload written
      → IsUnique given
      → lookup "alg" given ≡ none
      → lookup "b64" given ≡ none
      → lookup "crit" given ≡ none
      → (name == "") ≡ false
      → is_in name algs ≡ true
      → get_algorithm_by_name has_crypto jwt.jws name ≡ ok handler
      → KeysMatch jwt.jws handler sign_key verify_key ws
      → ReadsBack json (JwsEncode.make_header (Value.str name) given false) header' sort_headers
      → ClaimsReadBack written payload'
      → wants_signature options ≡ true
      → validate_claims payload' (merge_options jwt.options options).0 expected now ≡ ok tt
      → JwtEncode.encode has_crypto json jwt
          (dict payload)
          (plain sign_key)
          (named name)
          (some given)
          sort_headers
        ≡ ok e
      → decode has_crypto json jwt
          (Text.bytes e.token)
          (plain verify_key)
          (some algs)
          options
          verify
          none
          expected
          now
        ≡ ok payload'
  decode-encode payload written payload' given header' name sort_headers sign_key verify_key e algs
        options verify expected now handler ws once as_written unique no_alg no_b64 no_crit named_ok
        allowed found match reads claims on valid h =
      let (bs, dumped_written, h1) = encode-eq-ok payload given sign_key name sort_headers e h in
      let dumped =
        subst (λ (x : Dict). json.dumps false (dict x) ≡ ok bs)
          (convert_times-AreWritten payload written once as_written) dumped_written in
      let (d, decoded, same, _, _) =
        decode_complete-encode has_crypto json jwt.jws bs given header' name sort_headers sign_key
          verify_key e algs (some (sig_options (wants_signature options))) handler ws unique no_alg
          no_b64 no_crit named_ok allowed (claims.are_bytes bs dumped) found match reads
          (verify_sig_options jwt.jws (wants_signature options) ∙ on) h1 in
      decode-accepts (Text.bytes e.token) verify_key algs options verify expected now d payload'
        decoded
        (ap (decode_payload json) same ∙ decode_payload-eq-ok bs payload' (claims.reads bs dumped))
        valid
