-- ===== src/Jwt/DecodeLaws.antt =====
-- What `PyJWT.decode` of jwt/api_jwt.py promises: a payload it returns is the signed one, and its
-- claims are acceptable; and what its options do.
use pyjwt.Prelude.{Bool, ◌≡◌, refl, Option, some, String, List}
use pyjwt.Prelude.Int.{ℤ}
use pyjwt.Errors.{ok}
use pyjwt.Value.{Dict}
use pyjwt.Utils.Text.{Bytes, Text}
use pyjwt.Jws.State.{PyJws, merge_sig_options}
use pyjwt.Jws.Load.{Json}
use pyjwt.Jws.Verify
use pyjwt.Jws.Verify.{KeyArg, Decoded, attach, decode_loaded}
use pyjwt.Jws.VerifyLaws
use pyjwt.Jws.VerifyLaws.{IsSound}
use pyjwt.Jwt.Options.{Options, merge_options}
use pyjwt.Jwt.Claims.{Expected}
use pyjwt.Jwt.ClaimsSpec.{IsAcceptable}
use pyjwt.Jwt.Decode.{PyJwt, decode_payload, sig_options}

pub verify_sig_options :
    {O : Type 0} (jws : PyJws O) (b : Bool)
    → (merge_sig_options jws.options (some (sig_options b))).verify_signature ≡ b
unfolding merge_sig_options
verify_sig_options jws b = refl

module _ {O : Type 0} (has_crypto : Bool) (json : Json) (jwt : PyJwt O) where
  -- What a returned payload rests on: the signed message, whose bytes are the payload's JSON, and
  -- claims that are acceptable under the merged options.
  pub record IsTrusted (token : Text) (key : KeyArg O) (algorithms : Option (List String))
      (options : Option Options) (detached_payload : Option Bytes) (expected : Expected) (now : ℤ)
      (payload : Dict) : Type 0 where
    pub message : Decoded
    pub is_sound : IsSound has_crypto jwt.jws json token key algorithms detached_payload message
    pub is_payload : decode_payload json message.payload ≡ ok payload
    pub is_acceptable : IsAcceptable payload (merge_options jwt.options options).0 expected now
