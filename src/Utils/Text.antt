-- ===== src/Utils/Text.antt =====
-- `force_bytes` of jwt/utils.py, and `str.encode("utf-8")`. A text that the program takes apart is
-- its list of code points, a `bytes` object its list of numbers below 256.
use pyjwt.Prelude.{ℕ, ◌+◌, ◌/◌, ◌%◌, ◌<◌, List, [], ◌∷◌, ◌++◌, ltb, leb, ◌&&◌, All, if◌then◌else◌}
use pyjwt.Errors.{Result, ok, raise, unicode_error, type_error, ◌>>=◌}

abbrev pub Bytes : Type 0
Bytes = List ℕ

abbrev pub IsByte : ℕ → Type 0
IsByte b = b < 256

abbrev pub IsBytes : Bytes → Type 0
IsBytes = All IsByte

-- Union[str, bytes], and an object of any other type.
pub data Text : Type 0 where
  str : List ℕ → Text
  bytes : Bytes → Text
  other : Text

-- The UTF-8 bytes of a code point; a surrogate has none.
unfoldable pub utf8_char : ℕ → Result Bytes
utf8_char c =
    if ltb c 0x80
    then ok (c ∷ [])
    else if ltb c 0x800
    then ok ((0xc0 + c / 64) ∷ (0x80 + c % 64) ∷ [])
    else if leb 0xd800 c && ltb c 0xe000
    then raise unicode_error "surrogates not allowed"
    else if ltb c 0x10000
    then ok ((0xe0 + c / 4096) ∷ (0x80 + c / 64 % 64) ∷ (0x80 + c % 64) ∷ [])
    else ok
        ((0xf0 + c / 262144) ∷ (0x80 + c / 4096 % 64) ∷ (0x80 + c / 64 % 64) ∷ (0x80 + c % 64) ∷ [])

unfoldable pub utf8 : List ℕ → Result Bytes
unfolding utf8_char
utf8 [] = ok []
utf8 (c ∷ cs) = do head ← utf8_char c; rest ← utf8 cs; ok (head ++ rest)

unfoldable pub force_bytes : Text → Result Bytes
force_bytes (str s) = utf8 s
force_bytes (bytes b) = ok b
force_bytes other = raise type_error "Expected a string value"
