-- ===== src/Jwt/Numbers.antt =====
-- Python's `int(value)` on a JSON value, as the checks of "iat", "nbf" and "exp" in jwt/api_jwt.py use
-- it, and times in microseconds.
use pyjwt.Prelude.{
  ℕ, zero, suc, ◌+◌, ◌-◌, ◌*◌, ◌/◌, Bool, true, false, ◌&&◌, ◌||◌, String, List, [], ◌∷◌, leb,
  nat_eq, reverse, if◌then◌else◌,
}
use pyjwt.Prelude.Int.{ℤ, pos, negsuc}
use pyjwt.Errors.{Result, ok, raise, type_error, value_error, overflow_error, ◌>>=◌}
use pyjwt.Value.{
  Value, Float, micros, infinity, nan, null, bool, int, float, str, list, dict, datetime,
}
use pyjwt.Utils.KeyFormats.{codes}

-- The spaces that `int` strips: in ASCII those of the C locale, not U+001C to U+001F, and beyond it those
-- of str.isspace.
abbrev is_space : ℕ → Bool
is_space c =
    (leb 9 c && leb c 13)
    || nat_eq c b' '
    || nat_eq c 0x85
    || nat_eq c 0xa0
    || nat_eq c 0x1680
    || (leb 0x2000 c && leb c 0x200a)
    || nat_eq c 0x2028
    || nat_eq c 0x2029
    || nat_eq c 0x202f
    || nat_eq c 0x205f
    || nat_eq c 0x3000

-- str.lstrip
unfoldable lstrip : List ℕ → List ℕ
lstrip [] = []
lstrip (c ∷ s) = let rest = lstrip s in if is_space c then rest else c ∷ s

unfoldable pub strip : List ℕ → List ℕ
unfolding lstrip
strip s = reverse (lstrip (reverse (lstrip s)))

pub data Character : Type 0 where
  digit : ℕ → Character
  underscore : Character
  invalid : Character

-- The zeros of the decimal digits beyond ASCII, each followed by its other nine digits (Unicode 14).
abbrev decimal_zeros : List ℕ
decimal_zeros =
    0x660 ∷ 0x6f0 ∷ 0x7c0 ∷ 0x966 ∷ 0x9e6 ∷ 0xa66 ∷ 0xae6 ∷ 0xb66 ∷ 0xbe6 ∷ 0xc66 ∷ 0xce6 ∷ 0xd66
    ∷ 0xde6 ∷ 0xe50 ∷ 0xed0 ∷ 0xf20 ∷ 0x1040 ∷ 0x1090 ∷ 0x17e0 ∷ 0x1810 ∷ 0x1946 ∷ 0x19d0 ∷ 0x1a80
    ∷ 0x1a90 ∷ 0x1b50 ∷ 0x1bb0 ∷ 0x1c40 ∷ 0x1c50 ∷ 0xa620 ∷ 0xa8d0 ∷ 0xa900 ∷ 0xa9d0 ∷ 0xa9f0
    ∷ 0xaa50 ∷ 0xabf0 ∷ 0xff10 ∷ 0x104a0 ∷ 0x10d30 ∷ 0x11066 ∷ 0x110f0 ∷ 0x11136 ∷ 0x111d0 ∷ 0x112f0
    ∷ 0x11450 ∷ 0x114d0 ∷ 0x11650 ∷ 0x116c0 ∷ 0x11730 ∷ 0x118e0 ∷ 0x11950 ∷ 0x11c50 ∷ 0x11d50
    ∷ 0x11da0 ∷ 0x16a60 ∷ 0x16ac0 ∷ 0x16b50 ∷ 0x1d7ce ∷ 0x1d7d8 ∷ 0x1d7e2 ∷ 0x1d7ec ∷ 0x1d7f6
    ∷ 0x1e140 ∷ 0x1e2f0 ∷ 0x1e950 ∷ 0x1fbf0 ∷ []

unfoldable decimal_from : List ℕ → ℕ → Character
decimal_from [] c = invalid
decimal_from (z ∷ zs) c =
    let rest = decimal_from zs c in if leb z c && leb c (z + 9) then digit (c - z) else rest

unfoldable pub classify : ℕ → Character
unfolding decimal_from
classify c =
    if leb b'0' c && leb c b'9'
    then digit (c - b'0')
    else if nat_eq c b'_'
    then underscore
    else decimal_from decimal_zeros c

abbrev pub not_int : Result ℕ
not_int = raise value_error "invalid literal for int() with base 10"

-- Decimal digits with single underscores between them; the Boolean says whether a digit stands just
-- before. `count` is what is left of the 4300 digits that CPython converts.
unfoldable pub parse_digits : ℕ → Bool → ℕ → List ℕ → Result ℕ
parse_digits count true acc [] = ok acc
parse_digits count false acc [] = not_int
parse_digits count before acc (c ∷ s) = elim (classify c) [
  | digit d ↦ if nat_eq count 0 then not_int else parse_digits (count - 1) true (acc * 10 + d) s
  | underscore ↦ if before then parse_digits count false acc s else not_int
  | invalid ↦ not_int
]

-- The integer `-n`.
abbrev pub negate : ℕ → ℤ
negate zero = pos zero
negate (suc n) = negsuc n

abbrev pub signed_digits : List ℕ → Result ℤ
signed_digits [] = raise value_error "invalid literal for int() with base 10"
signed_digits (c ∷ s) =
    if nat_eq c b'-'
    then (do n ← parse_digits 4300 false 0 s; ok (negate n))
    else if nat_eq c b'+'
    then (do n ← parse_digits 4300 false 0 s; ok (pos n))
    else do n ← parse_digits 4300 false 0 (c ∷ s); ok (pos n)

-- int(s)
unfoldable pub int_of_str : String → Result ℤ
unfolding strip parse_digits classify
int_of_str s = signed_digits (strip (codes s))

abbrev pub million : ℕ
million = 1_000_000

-- int(x) cuts towards 0.
unfoldable pub truncate : ℤ → ℤ
truncate (pos n) = pos (n / million)
truncate (negsuc n) = negate (suc n / million)

unfoldable pub int_of_float : Float → Result ℤ
unfolding truncate
int_of_float (micros n) = ok (truncate n)
int_of_float (infinity s) = raise overflow_error "cannot convert float infinity to integer"
int_of_float nan = raise value_error "cannot convert float NaN to integer"

-- int(value)
unfoldable pub to_int : Value → Result ℤ
unfolding int_of_float int_of_str
to_int null =
    raise type_error "int() argument must be a string, a bytes-like object or a real number"
to_int (bool false) = ok (pos 0)
to_int (bool true) = ok (pos 1)
to_int (int n) = ok n
to_int (float x) = int_of_float x
to_int (str s) = int_of_str s
to_int (list vs) =
    raise type_error "int() argument must be a string, a bytes-like object or a real number"
to_int (dict d) =
    raise type_error "int() argument must be a string, a bytes-like object or a real number"
to_int (datetime t) =
    raise type_error "int() argument must be a string, a bytes-like object or a real number"

-- A number of seconds, in microseconds.
unfoldable pub seconds : ℤ → ℤ
seconds (pos n) = pos (n * million)
seconds (negsuc n) = negate (suc n * million)
