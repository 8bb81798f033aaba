-- ===== src/Jwt/OptionLaws.antt =====
-- What the options of a `decode` call of jwt/api_jwt.py do: turning the signature check off, and the
-- key-length option.
use mathlib.Core.Path.{fun_ext}
use pyjwt.Prelude.{
  Bool, true, false, ◌&&◌, ◌≡◌, arith, if◌then◌else◌, refl, ap, Option, some, String, List, [],
}
use pyjwt.Prelude.Int.{ℤ}
use pyjwt.Errors.{Result, ok, ◌>>=◌}
use pyjwt.Value.{Dict, get, has, is_false}
use pyjwt.Utils.Text.{Bytes, Text}
use pyjwt.Jws.State.{merge_sig_options, or_else}
use pyjwt.Jws.Load.{Json, Loaded, load}
use pyjwt.Jws.Headers.{validate_headers}
use pyjwt.Jws.Verify
use pyjwt.Jws.Verify.{KeyArg, attach, decode_loaded}
use pyjwt.Jwt.Options.{
  signature_off, FullOptions, Options, override, turn_off, mutate, merge_options,
}
use pyjwt.Jwt.Claims.{Expected, is_iterable, validate_required_claims, validate_claims}
use pyjwt.Jwt.Decode.{
  PyJwt, DecodedJwt, decode_payload, sig_options, check_decoded, verify_warnings, decode_complete,
  decode,
}

and_off : (b : Bool) → (b && false) ≡ false
and_off b = ground arith

validate_claims-off :
    (payload : Dict) (o : FullOptions) (x : Expected) (now : ℤ)
    → is_iterable x.audience ≡ true
    → o.require ≡ []
    → validate_claims payload (merge_options o (some signature_off)).0 x now ≡ ok tt
unfolding validate_claims merge_options override mutate turn_off validate_required_claims
validate_claims-off payload o x now e r =
    rw (e, r, and_off (has payload "iat"), and_off (has payload "nbf"), and_off (has payload "exp"))

module _ {O : Type 0} (has_crypto : Bool) (json : Json) (jwt : PyJwt O) where
  -- With {"verify_signature": False} and no required claims, `decode` returns the payload of every
  -- token that loads, with valid headers, its payload attached and a JSON object: whatever the key,
  -- the algorithms, the signature, the expected parties and the time. (An audience that is not
  -- iterable still raises.)
  pub decode-unverified :
      (token : Text) (key : KeyArg O) (algorithms : Option (List String)) (verify : Option Bool)
      (detached_payload : Option Bytes) (expected : Expected) (now : ℤ) (l : Loaded)
      (payload : Dict)
      → load json token ≡ ok l
      → validate_headers l.header false ≡ ok tt
      → is_false (get l.header "b64") ≡ false
      → decode_payload json l.payload ≡ ok payload
      → is_iterable expected.audience ≡ true
      → jwt.options.require ≡ []
      → decode has_crypto json jwt token key algorithms
          (some signature_off)
          verify
          detached_payload
          expected
          now
        ≡ ok payload
  unfolding decode decode_complete check_decoded Verify.decode_complete decode_loaded attach
      merge_sig_options
  decode-unverified token key algorithms verify detached_payload expected now l payload e1 e2 e3 e4
        e5 e6 =
      rw (e1, e2, e3, e4, validate_claims-off payload jwt.options expected now e5 e6)

-- The same options with another entry for the key length.
abbrev pub with_length : Options → Option Bool → Options
with_length given enforce = record given { enforce_minimum_key_length = enforce }

check_decoded-length :
    (json : Json) (o : FullOptions) (given : Options) (enforce : Option Bool) (x : Expected)
    (now : ℤ) (ws : List Verify.Warning) (d : Verify.Decoded) (b : Bool)
    → check_decoded json
        (override o (if b then with_length given enforce else turn_off (with_length given enforce)))
        x
        now
        ws
        d
      ≡ check_decoded json (override o (if b then given else turn_off given)) x now ws d
unfolding check_decoded validate_claims override turn_off
check_decoded-length json o given enforce x now ws d true = refl
check_decoded-length json o given enforce x now ws d false = refl

module _ {O : Type 0} (has_crypto : Bool) (json : Json) (jwt : PyJwt O) where
  -- The "enforce_minimum_key_length" entry that a `decode` call passes has no effect: whatever it is,
  -- or left out, the result is the same.
  pub decode-length_option :
      (token : Text) (key : KeyArg O) (algorithms : Option (List String)) (given : Options)
      (enforce : Option Bool) (verify : Option Bool) (detached_payload : Option Bytes)
      (expected : Expected) (now : ℤ)
      → decode has_crypto json jwt token key algorithms
          (some (with_length given enforce))
          verify
          detached_payload
          expected
          now
        ≡ decode has_crypto json jwt token key algorithms
            (some given)
            verify
            detached_payload
            expected
            now
  unfolding decode decode_complete merge_options mutate
  decode-length_option token key algorithms given enforce verify detached_payload expected now =
      let wanted = or_else given.verify_signature true in
      ap
        (λ (check : Verify.Decoded → Result DecodedJwt).
          (Verify.decode_complete has_crypto json jwt.jws token key algorithms
              (some (sig_options wanted)) detached_payload
            >>= check)
          >>= λ r. ok r.payload)
        (fun_ext λ d.
          check_decoded-length json jwt.options given enforce expected now
            (verify_warnings verify wanted) d wanted)
