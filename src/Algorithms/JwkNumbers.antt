-- ===== src/Algorithms/JwkNumbers.antt =====
-- The number entries of a JWK in jwt/algorithms.py: `to_base64url_uint(n).decode()`,
-- `from_base64url_uint(obj[name])` and `base64url_decode(obj.get(name))`.
pub mod Reading
use pyjwt.Prelude.{ℕ, Option, none, some, String}
use pyjwt.Prelude.Int.{pos}
use pyjwt.Errors.{Result, ok, raise, key_error, ◌>>=◌}
use pyjwt.Value
use pyjwt.Value.{Value, Dict, lookup, get}
use pyjwt.Utils.Text
use pyjwt.Utils.Text.{Bytes, Text}
use pyjwt.Utils.Base64.{base64url_encode, base64url_decode}
use pyjwt.Utils.Numbers.{to_base64url_uint, from_base64url_uint}
use pyjwt.Utils.Ascii.{decode_ascii}
use pyjwt.Utils.KeyFormats.{codes}

-- A value as an argument of the codecs, which take a text.
abbrev pub text_of_value : Value → Text
text_of_value (Value.str s) = Text.str (codes s)
text_of_value _ = Text.other

-- to_base64url_uint(n, bit_length).decode()
unfoldable pub uint_value : ℕ → Option ℕ → Result Value
uint_value n bits = do enc ← to_base64url_uint (pos n) bits; s ← decode_ascii enc; ok (Value.str s)

abbrev pub item : String → Option Value → Result Value
item name none = raise key_error name
item name (some v) = ok v

-- from_base64url_uint(obj[name])
unfoldable pub uint_at : Dict → String → Result ℕ
uint_at obj name = do v ← item name (lookup name obj); from_base64url_uint (text_of_value v)

-- base64url_encode(data).decode()
unfoldable pub bytes_value : Bytes → Result Value
bytes_value bs = do s ← decode_ascii (base64url_encode bs); ok (Value.str s)

-- base64url_decode(obj.get(name))
unfoldable pub bytes_at : Dict → String → Result Bytes
bytes_at obj name = base64url_decode (text_of_value (get obj name))
