-- ===== src/Jwt/Encode.antt =====
-- `PyJWT.encode` and `_encode_payload` of jwt/api_jwt.py.
use pyjwt.Prelude.{Bool, false, ◌&&◌, not, Option, String, List, [], ◌∷◌, ◌/◌}
use pyjwt.Prelude.Int.{ℤ, pos, negsuc}
use pyjwt.Errors.{Result, raise, raise_if, type_error, ◌>>=◌, ◌>>◌}
use pyjwt.Value.{Value, Dict, int, dict, datetime, get, set, has, is_str}
use pyjwt.Jws.Load.{Json}
use pyjwt.Jws.Verify.{KeyArg}
use pyjwt.Jws.Encode
use pyjwt.Jws.Encode.{AlgorithmArg, Encoded}
use pyjwt.Jwt.Numbers.{million}
use pyjwt.Jwt.Decode.{PyJwt}

-- timegm(d.utctimetuple()): whole seconds, rounded down.
unfoldable pub timegm : ℤ → ℤ
timegm (pos n) = pos (n / million)
timegm (negsuc n) = negsuc (n / million)

abbrev pub as_int_date : Value → String → Dict → Dict
as_int_date (datetime t) claim payload = set claim (int (timegm t)) payload
as_int_date _ claim payload = payload

-- The loop over the time claims.
unfoldable pub convert_times : List String → Dict → Dict
convert_times [] payload = payload
convert_times (claim ∷ claims) payload =
    convert_times claims (as_int_date (get payload claim) claim payload)

abbrev pub time_claims : List String
time_claims = "exp" ∷ "iat" ∷ "nbf" ∷ []

module _ {O : Type 0} (has_crypto : Bool) (json : Json) where
  unfoldable pub encode_dict :
      PyJwt O → Dict → KeyArg O → AlgorithmArg → Option Dict → Bool → Result Encoded
  encode_dict jwt payload key algorithm headers sort_headers =
      let converted = convert_times time_claims payload in
      do
        raise_if (has converted "iss" && not (is_str (get converted "iss"))) type_error
            "Issuer (iss) must be a string."
        json_payload ← json.dumps false (dict converted)
        Encode.encode has_crypto json jwt.jws json_payload key algorithm headers false sort_headers

  -- A payload that is no dict is refused.
  unfoldable pub encode :
      PyJwt O → Value → KeyArg O → AlgorithmArg → Option Dict → Bool → Result Encoded
  unfolding encode_dict
  encode jwt (dict payload) key algorithm headers sort_headers =
      encode_dict jwt payload key algorithm headers sort_headers
  encode jwt _ key algorithm headers sort_headers =
      raise type_error "Expecting a dict object, as JWT only supports JSON objects as payloads."
