-- ===== src/Utils/Utf8.antt =====
-- `bytes.decode("utf-8")`, which jwt/algorithms.py calls: a decoder with the bytes that are still to
-- come, the number that the read ones make, and the least number for that many bytes.
use pyjwt.Prelude.{
  ℕ, zero, suc, ◌+◌, ◌-◌, ◌*◌, Bool, ◌&&◌, not, List, [], ◌∷◌, ltb, leb, if◌then◌else◌,
}
use pyjwt.Errors.{Result, ok, raise, unicode_error, ◌>>=◌}
use pyjwt.Utils.Text.{Bytes}

pub data Lead : Type 0 where
  char : ℕ → Lead
  more : ℕ → ℕ → ℕ → Lead
  bad : Lead

-- What the first byte of a character says.
abbrev pub lead : ℕ → Lead
lead b =
    if ltb b 0x80
    then char b
    else if ltb b 0xc0
    then bad
    else if ltb b 0xe0
    then more 1 (b - 0xc0) 0x80
    else if ltb b 0xf0
    then more 2 (b - 0xe0) 0x800
    else if ltb b 0xf8
    then more 3 (b - 0xf0) 0x10000
    else bad

-- The shortest form of a code point that is no surrogate.
abbrev pub is_allowed : ℕ → ℕ → Bool
is_allowed least n = leb least n && (ltb n 0x110000 && not (leb 0xd800 n && ltb n 0xe000))

abbrev pub is_continuation : ℕ → Bool
is_continuation b = leb 0x80 b && ltb b 0xc0

abbrev pub put : ℕ → Result (List ℕ) → Result (List ℕ)
put c rest = do cs ← rest; ok (c ∷ cs)

unfoldable pub decode_from : Bytes → ℕ → ℕ → ℕ → Result (List ℕ)
decode_from [] zero acc least = ok []
decode_from [] (suc left) acc least = raise unicode_error "unexpected end of data"
decode_from (b ∷ bs) zero acc least = elim (lead b) [
  | char c ↦ put c (decode_from bs 0 0 0)
  | more n start low ↦ decode_from bs n start low
  | bad ↦ raise unicode_error "invalid start byte"
]
decode_from (b ∷ bs) (suc zero) acc least =
    let rest = put (acc * 64 + (b - 0x80)) (decode_from bs 0 0 0) in
    if is_continuation b && is_allowed least (acc * 64 + (b - 0x80))
    then rest
    else raise unicode_error "invalid continuation byte"
decode_from (b ∷ bs) (suc (suc left)) acc least =
    let rest = decode_from bs (suc left) (acc * 64 + (b - 0x80)) least in
    if is_continuation b then rest else raise unicode_error "invalid continuation byte"

unfoldable pub decode_utf8 : Bytes → Result (List ℕ)
unfolding decode_from
decode_utf8 bs = decode_from bs 0 0 0
