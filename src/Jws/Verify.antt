-- ===== src/Jws/Verify.antt =====
-- `_verify_signature`, `decode_complete`, `decode` and `get_unverified_header` of jwt/api_jws.py.
use pyjwt.Prelude.{
  Bool, true, false, ◌&&◌, ◌||◌, not, Option, none, some, String, List, [], ◌∷◌, ◌++◌,
  if◌then◌else◌,
}
use pyjwt.Errors.{
  Result, ok, raise, raise_if, except_raise, decode_error, type_error, not_implemented_error,
  invalid_algorithm_error, invalid_key_error, invalid_signature_error, ◌>>=◌, ◌>>◌,
}
use pyjwt.Value.{Value, Dict, str, list, dict, get, lookup, truthy, value_in, is_false}
use pyjwt.Utils.Text.{Bytes, Text}
use pyjwt.Algorithms.{Algorithm, Key}
use pyjwt.Jwk.{PyJwk}
use pyjwt.Jws.State.{PyJws, SomeSigOptions, merge_sig_options, get_algorithm_by_name}
use pyjwt.Jws.Headers.{validate_headers}
use pyjwt.Jws.Load.{Json, Loaded, dot, rsplit_dot, load}

-- A key argument: a PyJWK, or anything else.
pub data KeyArg (O : Type 0) : Type 0 where
  plain : Key O → KeyArg O
  jwk : PyJwk O → KeyArg O

-- The warnings of jwt/warnings.py, and the built-in one. A function that returns also returns the
-- warnings that it emitted; those of a call that raises are not modelled.
pub data Warning : Type 0 where
  insecure_key_length : String → Warning
  deprecated : Warning

pub record Decoded : Type 0 where
  pub payload : Bytes
  pub header : Dict
  pub signature : Bytes
  pub warnings : List Warning

abbrev pub is_empty_or_none : Option (List String) → Bool
is_empty_or_none none = true
is_empty_or_none (some []) = true
is_empty_or_none (some (a ∷ as')) = false

abbrev pub not_allowed : Option (List String) → Value → Bool
not_allowed none alg = false
not_allowed (some algorithms) alg = not (value_in alg algorithms)

abbrev pub alg_header : Option Value → Result Value
alg_header none = raise invalid_algorithm_error "Algorithm not specified"
alg_header (some v) = ok v

-- The key-length check, with the object's own option.
abbrev pub length_policy : Bool → Option String → Result (List Warning)
length_policy enforce none = ok []
length_policy enforce (some m) =
    if enforce then raise invalid_key_error m else ok (insecure_key_length m ∷ [])

abbrev pub before : Option (Bytes × Bytes) → Bytes → Bytes
before none s = s
before (some (a, b)) s = a

-- signing_input.rsplit(b".", 1)[0] + b"." + payload
unfoldable pub detached_input : Bytes → Bytes → Bytes
detached_input signing_input payload =
    before (rsplit_dot signing_input) signing_input ++ dot ∷ payload

abbrev pub need_payload : Option Bytes → Bytes → Result (Bytes × Bytes)
need_payload none signing_input =
    raise decode_error
      "It is required that you pass in a value for the \"detached_payload\" argument"
need_payload (some payload) signing_input = ok (payload, detached_input signing_input payload)

-- The payload and the signing input that decoding goes on with.
unfoldable pub attach : Loaded → Option Bytes → Result (Bytes × Bytes)
attach l detached_payload =
    if is_false (get l.header "b64")
    then need_payload detached_payload l.signing_input
    else ok (l.payload, l.signing_input)

module _ {O : Type 0} where
  abbrev pub is_jwk : KeyArg O → Bool
  is_jwk (plain key) = false
  is_jwk (jwk key) = true

  -- `algorithms`, which a PyJWK sets when it is None.
  abbrev pub allowed_algorithms : Option (List String) → KeyArg O → Option (List String)
  allowed_algorithms none (plain key) = none
  allowed_algorithms none (jwk key) = some (key.algorithm_name ∷ [])
  allowed_algorithms (some names) key = some names

  unfoldable pub check_key_length : PyJws O → Algorithm O → Key O → Result (List Warning)
  check_key_length jws alg_obj key =
      length_policy jws.options.enforce_minimum_key_length (alg_obj.check_key_length key)

  -- A list or a dict is not hashable; no other value but a text is a key of the table.
  unfoldable pub algorithm_of_value : Bool → PyJws O → Value → Result (Algorithm O)
  algorithm_of_value has_crypto jws (str name) = get_algorithm_by_name has_crypto jws name
  algorithm_of_value has_crypto jws (list _) = raise type_error "unhashable type: 'list'"
  algorithm_of_value has_crypto jws (dict _) = raise type_error "unhashable type: 'dict'"
  algorithm_of_value has_crypto jws _ = raise not_implemented_error "Algorithm not supported"

  -- The algorithm object and the prepared key.
  unfoldable pub choose : Bool → PyJws O → KeyArg O → Value → Result (Algorithm O × Key O)
  choose has_crypto jws (jwk key) alg = ok (key.algorithm, key.key)
  choose has_crypto jws (plain key) alg = do
    alg_obj ←
        except_raise (algorithm_of_value has_crypto jws alg) not_implemented_error
          invalid_algorithm_error "Algorithm not supported"
    prepared ← alg_obj.prepare_key key
    ok (alg_obj, prepared)

  unfoldable pub verify_signature :
      Bool
      → PyJws O
      → Bytes
      → Dict
      → Bytes
      → KeyArg O
      → Option (List String)
      → Result (List Warning)
  verify_signature has_crypto jws signing_input header signature key algorithms = do
    alg ← alg_header (lookup "alg" header)
    raise_if (not (truthy alg) || not_allowed (allowed_algorithms algorithms key) alg)
        invalid_algorithm_error "The specified alg value is not allowed"
    (alg_obj, prepared_key) ← choose has_crypto jws key alg
    warnings ← check_key_length jws alg_obj prepared_key
    verified ← alg_obj.verify signing_input prepared_key signature
    raise_if (not verified) invalid_signature_error "Signature verification failed"
    ok warnings

  -- `decode_complete` behind its `_load`; the second argument is the merged "verify_signature".
  unfoldable pub decode_loaded :
      Bool
      → Bool
      → PyJws O
      → KeyArg O
      → Option (List String)
      → Option Bytes
      → Loaded
      → Result Decoded
  decode_loaded has_crypto verify jws key algorithms detached_payload l = do
    validate_headers l.header false
    (payload, signing_input) ← attach l detached_payload
    warnings ←
        (if verify
          then verify_signature has_crypto jws signing_input l.header l.signature key algorithms
          else ok [])
    ok (record {
      payload = payload;
      header = l.header;
      signature = l.signature;
      warnings = warnings;
    })

  unfoldable pub decode_complete :
      Bool
      → Json
      → PyJws O
      → Text
      → KeyArg O
      → Option (List String)
      → Option SomeSigOptions
      → Option Bytes
      → Result Decoded
  decode_complete has_crypto json jws jwt key algorithms options detached_payload =
      let verify = (merge_sig_options jws.options options).verify_signature in
      do
        raise_if (verify && is_empty_or_none algorithms && not (is_jwk key)) decode_error
            "It is required that you pass in a value for the \"algorithms\" argument when calling decode()."
        l ← load json jwt
        decode_loaded has_crypto verify jws key algorithms detached_payload l

  unfoldable pub decode :
      Bool
      → Json
      → PyJws O
      → Text
      → KeyArg O
      → Option (List String)
      → Option SomeSigOptions
      → Option Bytes
      → Result Bytes
  decode has_crypto json jws jwt key algorithms options detached_payload = do
    decoded ← decode_complete has_crypto json jws jwt key algorithms options detached_payload
    ok decoded.payload

unfoldable pub get_unverified_header : Json → Text → Result Dict
get_unverified_header json jwt = do l ← load json jwt; validate_headers l.header false; ok l.header
