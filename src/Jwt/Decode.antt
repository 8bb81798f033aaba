-- ===== src/Jwt/Decode.antt =====
-- Class `PyJWT` of jwt/api_jwt.py: `__init__`, `decode_complete`, `_decode_payload` and `decode`.
use pyjwt.Prelude.{
  Bool, true, false, Option, none, some, String, List, [], ◌∷◌, ◌++◌, if◌then◌else◌,
}
use pyjwt.Prelude.Int.{ℤ}
use pyjwt.Errors.{Result, ok, except_raise, decode_error, value_error, ◌>>=◌, ◌>>◌}
use pyjwt.Value.{Dict}
use pyjwt.Utils.Text.{Bytes, Text}
use pyjwt.Algorithms.{Backend}
use pyjwt.Jws.State
use pyjwt.Jws.State.{PyJws, SomeSigOptions, or_else}
use pyjwt.Jws.Load.{Json, as_dict}
use pyjwt.Jws.Verify
use pyjwt.Jws.Verify.{KeyArg, Warning, deprecated}
use pyjwt.Jwt.Options.{FullOptions, Options, default_options, get_sig_options, merge_options}
use pyjwt.Jwt.Claims.{Expected, validate_claims}

pub record PyJwt (O : Type 0) : Type 0 where
  pub options : FullOptions
  pub jws : PyJws O

-- PyJWT(options): the object and the caller's dict, which `_merge_options` changes.
unfoldable pub init : {O : Type 0} → Backend O → Option Options → PyJwt O × Option Options
init b given =
    let (merged, given') = merge_options default_options given in
    (record { options = merged; jws = State.init b none (some (get_sig_options merged)) }, given')

-- The result of `decode_complete`.
pub record DecodedJwt : Type 0 where
  pub payload : Dict
  pub header : Dict
  pub signature : Bytes
  pub warnings : List Warning

unfoldable pub decode_payload : Json → Bytes → Result Dict
decode_payload json payload = do
  v ← except_raise (json.loads payload) value_error decode_error "Invalid payload string"
  as_dict v "Invalid payload string: must be a json object"

-- options.get("verify_signature", True)
abbrev pub wants_signature : Option Options → Bool
wants_signature none = true
wants_signature (some given) = or_else given.verify_signature true

abbrev pub sig_options : Bool → SomeSigOptions
sig_options verify_signature = record {
  verify_signature = some verify_signature;
  enforce_minimum_key_length = none;
}

-- `verify is not None and verify != verify_signature` gives a warning.
abbrev pub verify_warnings : Option Bool → Bool → List Warning
verify_warnings none wanted = []
verify_warnings (some true) wanted = if wanted then [] else deprecated ∷ []
verify_warnings (some false) wanted = if wanted then deprecated ∷ [] else []

-- The claims of a message, at a time.
unfoldable pub check_decoded :
    Json → FullOptions → Expected → ℤ → List Warning → Verify.Decoded → Result DecodedJwt
check_decoded json options expected now warnings d = do
  payload ← decode_payload json d.payload
  validate_claims payload options expected now
  ok (record {
    payload = payload;
    header = d.header;
    signature = d.signature;
    warnings = warnings ++ d.warnings;
  })

module _ {O : Type 0} (has_crypto : Bool) (json : Json) where
  -- `now` is the time that `_validate_claims` reads. Deprecated keyword arguments, which give a
  -- warning and nothing else, are left out.
  unfoldable pub decode_complete :
      PyJwt O
      → Text
      → KeyArg O
      → Option (List String)
      → Option Options
      → Option Bool
      → Option Bytes
      → Expected
      → ℤ
      → Result DecodedJwt
  decode_complete jwt token key algorithms options verify detached_payload expected now =
      let wanted = wants_signature options in
      let merged = (merge_options jwt.options options).0 in
      do
        d ←
            Verify.decode_complete has_crypto json jwt.jws token key algorithms
              (some (sig_options wanted)) detached_payload
        check_decoded json merged expected now (verify_warnings verify wanted) d

  unfoldable pub decode :
      PyJwt O
      → Text
      → KeyArg O
      → Option (List String)
      → Option Options
      → Option Bool
      → Option Bytes
      → Expected
      → ℤ
      → Result Dict
  decode jwt token key algorithms options verify detached_payload expected now = do
    d ← decode_complete jwt token key algorithms options verify detached_payload expected now
    ok d.payload
