-- ===== src/Jws/Load.antt =====
-- `_load` of jwt/api_jws.py: a token is cut at its last and its first dot, and its parts decoded.
use pyjwt.Prelude.{ℕ, Bool, ◌||◌, Option, none, some, String, [], ◌∷◌, nat_eq, if◌then◌else◌}
use pyjwt.Errors.{
  Result, ok, err, raise, isinstance, except_raise, decode_error, type_error, binascii_error,
  value_error, ◌>>=◌,
}
use pyjwt.Value.{Value, Dict, dict}
use pyjwt.Utils.Text.{Bytes, Text, bytes, utf8}
use pyjwt.Utils.Base64.{base64url_decode}

-- `json.loads` of bytes, and `json.dumps(value, separators=(",", ":"), cls=…, sort_keys=…)` encoded to
-- bytes, whose first argument is `sort_keys`.
pub record Json : Type 0 where
  pub loads : Bytes → Result Value
  pub dumps : Bool → Value → Result Bytes

abbrev pub dot : ℕ
dot = b'.'

abbrev pub prepend : ℕ → Option (Bytes × Bytes) → Option (Bytes × Bytes)
prepend c none = none
prepend c (some (a, b)) = some (c ∷ a, b)

-- s.split(b".", 1), with `none` for one part
unfoldable pub split_dot : Bytes → Option (Bytes × Bytes)
split_dot [] = none
split_dot (c ∷ s) = let rest = split_dot s in if nat_eq c dot then some ([], s) else prepend c rest

-- s.rsplit(b".", 1), with `none` for one part
unfoldable pub rsplit_dot : Bytes → Option (Bytes × Bytes)
rsplit_dot [] = none
rsplit_dot (c ∷ s) = elim (rsplit_dot s) [
  | some (a, b) ↦ some (c ∷ a, b)
  | none ↦ if nat_eq c dot then some ([], s) else none
]

pub record Loaded : Type 0 where
  pub payload : Bytes
  pub signing_input : Bytes
  pub header : Dict
  pub signature : Bytes

unfoldable pub token_bytes : Text → Result Bytes
token_bytes (Text.str s) = utf8 s
token_bytes (Text.bytes b) = ok b
token_bytes Text.other = raise decode_error "Invalid token type. Token must be a <class 'bytes'>"

-- Unpacking one part into two raises ValueError.
abbrev pub two_parts : Option (Bytes × Bytes) → Result (Bytes × Bytes)
two_parts none = raise decode_error "Not enough segments"
two_parts (some p) = ok p

-- `except (TypeError, binascii.Error)`
abbrev pub except_padding : Result Bytes → String → Result Bytes
except_padding (ok bs) m = ok bs
except_padding (err e) m =
    if isinstance e type_error || isinstance e binascii_error then raise decode_error m else err e

abbrev pub as_dict : Value → String → Result Dict
as_dict (dict d) m = ok d
as_dict _ m = raise decode_error m

unfoldable pub load : Json → Text → Result Loaded
load json jwt = do
  token ← token_bytes jwt
  (signing_input, crypto_segment) ← two_parts (rsplit_dot token)
  (header_segment, payload_segment) ← two_parts (split_dot signing_input)
  header_data ← except_padding (base64url_decode (bytes header_segment)) "Invalid header padding"
  header_value ←
      except_raise (json.loads header_data) value_error decode_error "Invalid header string"
  header ← as_dict header_value "Invalid header string: must be a json object"
  payload ← except_padding (base64url_decode (bytes payload_segment)) "Invalid payload padding"
  signature ← except_padding (base64url_decode (bytes crypto_segment)) "Invalid crypto padding"
  ok (record {
    payload = payload;
    signing_input = signing_input;
    header = header;
    signature = signature;
  })
