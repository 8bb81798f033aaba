-- ===== src/Jws/Encode.antt =====
-- `PyJWS.encode` of jwt/api_jws.py.
use pyjwt.Prelude.{
  Bool, true, false, ◌||◌, Option, none, some, String, List, [], ◌∷◌, ◌++◌, if◌then◌else◌,
}
use pyjwt.Errors.{Result, ok, ◌>>=◌, ◌>>◌}
use pyjwt.Value.{
  Value, Dict, empty, entry, str, bool, dict, get, has, set, remove, update, truthy, is_false,
}
use pyjwt.Utils.Text.{Bytes}
use pyjwt.Utils.Base64.{base64url_encode}
use pyjwt.Algorithms.{Key}
use pyjwt.Jws.State.{PyJws}
use pyjwt.Jws.Headers.{validate_headers}
use pyjwt.Jws.Load.{Json, dot}
use pyjwt.Jws.Verify.{KeyArg, plain, jwk, Warning, algorithm_of_value, check_key_length}

-- The `algorithm` argument: left out, None, or a name.
pub data AlgorithmArg : Type 0 where
  unset : AlgorithmArg
  null : AlgorithmArg
  named : String → AlgorithmArg

-- The token is ASCII, so its text and its bytes are the same numbers.
pub record Encoded : Type 0 where
  pub token : Bytes
  pub warnings : List Warning

-- The class attribute `header_typ`.
abbrev pub header_typ : String
header_typ = "JWT"

abbrev pub or_empty : Option Dict → Dict
or_empty none = empty
or_empty (some d) = d

module _ {O : Type 0} where
  abbrev pub default_algorithm : AlgorithmArg → KeyArg O → String
  default_algorithm unset (plain key) = "HS256"
  default_algorithm unset (jwk key) = key.algorithm_name
  default_algorithm null (plain key) = "none"
  default_algorithm null (jwk key) = key.algorithm_name
  default_algorithm (named a) key = a

  abbrev pub plain_key : KeyArg O → Key O
  plain_key (plain key) = key
  plain_key (jwk key) = key.key

-- A truthy "alg" in the headers wins over the argument.
abbrev pub prefer_header : Dict → String → Value
prefer_header headers name = if truthy (get headers "alg") then get headers "alg" else str name

-- if not header["typ"]: del header["typ"]
abbrev pub drop_typ : Dict → Dict
drop_typ header = if truthy (get header "typ") then header else remove "typ" header

-- A detached payload sets "b64"; otherwise the entry goes.
abbrev pub mark_b64 : Bool → Dict → Dict
mark_b64 true header = set "b64" (bool false) header
mark_b64 false header = if has header "b64" then remove "b64" header else header

-- The header that is signed.
unfoldable pub make_header : Value → Dict → Bool → Dict
make_header algorithm_ headers detached =
    mark_b64 detached
      (drop_typ (update (entry "typ" (str header_typ) (entry "alg" algorithm_ empty)) headers))

abbrev pub message_payload : Bool → Bytes → Bytes
message_payload true payload = payload
message_payload false payload = base64url_encode payload

abbrev pub token_payload : Bool → Bytes → Bytes
token_payload true msg_payload = []
token_payload false msg_payload = msg_payload

module _ {O : Type 0} where
  -- From the header on: segments, key, signature, token.
  unfoldable pub sign_segments :
      Bool → Json → PyJws O → Bytes → KeyArg O → Value → Dict → Bool → Bool → Result Encoded
  sign_segments has_crypto json jws payload key algorithm_ header detached sort_headers = do
    json_header ← json.dumps sort_headers (dict header)
    let header_segment = base64url_encode json_header
    let msg_payload = message_payload detached payload
    let signing_input = header_segment ++ dot ∷ msg_payload
    alg_obj ← algorithm_of_value has_crypto jws algorithm_
    prepared ← alg_obj.prepare_key (plain_key key)
    warnings ← check_key_length jws alg_obj prepared
    signature ← alg_obj.sign signing_input prepared
    ok (record {
      token =
          header_segment
          ++ (dot ∷ (token_payload detached msg_payload ++ dot ∷ base64url_encode signature));
      warnings = warnings;
    })

  -- `headers` that are None or empty are passed over, as an empty dict here is.
  unfoldable pub encode :
      Bool
      → Json
      → PyJws O
      → Bytes
      → KeyArg O
      → AlgorithmArg
      → Option Dict
      → Bool
      → Bool
      → Result Encoded
  encode has_crypto json jws payload key algorithm headers is_payload_detached sort_headers =
      let given = or_empty headers in
      let algorithm_ = prefer_header given (default_algorithm algorithm key) in
      let detached = is_payload_detached || is_false (get given "b64") in
      do
        validate_headers given true
        sign_segments has_crypto json jws payload key algorithm_
            (make_header algorithm_ given detached) detached sort_headers
