-- ===== src/Utils/Utf8Laws.antt =====
-- `str.encode("utf-8")` and then `bytes.decode("utf-8")`, as jwt/algorithms.py calls them.
use mathlib.Core.Path.{subst}
use pyjwt.Prelude.{
  ℕ, ◌+◌, ◌/◌, ◌%◌, ◌<◌, ◌≤◌, ◌≡◌, false, inl, inr, Bool-cases, List, [], ◌∷◌, ◌++◌, ltb, leb, ◌&&◌,
  All, arith,
}
use pyjwt.Errors.{ok}
use pyjwt.Errors.Bind.{>>=-eq-ok, ok-injective}
use pyjwt.Utils.Text.{Bytes, utf8, utf8_char}
use pyjwt.Utils.Utf8.{decode_from, decode_utf8, put}

-- A code point.
abbrev pub IsCodePoint : ℕ → Type 0
IsCodePoint n = n < 0x110000

module _ (c : ℕ) (rest : Bytes) where
  abbrev Reads : Bytes → Type 0
  Reads head = decode_from (head ++ rest) 0 0 0 ≡ put c (decode_from rest 0 0 0)

  one_byte : c < 0x80 → Reads (c ∷ [])
  unfolding decode_from
  one_byte h = ground arith

  two_bytes : 0x80 ≤ c → c < 0x800 → Reads ((0xc0 + c / 64) ∷ (0x80 + c % 64) ∷ [])
  unfolding decode_from
  two_bytes h k = ground arith

  three_bytes :
      0x800 ≤ c
      → c < 0x10000
      → (leb 0xd800 c && ltb c 0xe000) ≡ false
      → Reads ((0xe0 + c / 4096) ∷ (0x80 + c / 64 % 64) ∷ (0x80 + c % 64) ∷ [])
  unfolding decode_from
  three_bytes h k no_surrogate = ground arith

  four_bytes :
      0x10000 ≤ c
      → c < 0x110000
      → Reads (
          (0xf0 + c / 262144)
          ∷ (0x80 + c / 4096 % 64)
          ∷ (0x80 + c / 64 % 64)
          ∷ (0x80 + c % 64)
          ∷ [])
  unfolding decode_from
  four_bytes h k = ground arith

  -- The bytes that stand for a code point are read as it.
  char-read : (head : Bytes) → IsCodePoint c → utf8_char c ≡ ok head → Reads head
  unfolding utf8_char
  char-read head h e = elim (Bool-cases (ltb c 0x80)) [
    | inl t ↦ let e' = rw t at e in subst Reads (ok-injective e') (one_byte (ground arith))
    | inr t ↦ elim (Bool-cases (ltb c 0x800)) [
      | inl u ↦
          let e' = rw (t, u) at e in
          subst Reads (ok-injective e') (two_bytes (ground arith) (ground arith))
      | inr u ↦ elim (Bool-cases (leb 0xd800 c && ltb c 0xe000)) [
        | inl v ↦ let e' = rw (t, u, v) at e in cc
        | inr v ↦ elim (Bool-cases (ltb c 0x10000)) [
          | inl w ↦
              let e' = rw (t, u, v, w) at e in
              subst Reads (ok-injective e') (three_bytes (ground arith) (ground arith) v)
          | inr w ↦
              let e' = rw (t, u, v, w) at e in
              subst Reads (ok-injective e') (four_bytes (ground arith) h)
        ]
      ]
    ]
  ]

-- The UTF-8 bytes of a text decode to it, whatever its code points; a text with a surrogate has none.
pub decode_utf8-utf8 :
    (cs : List ℕ) (bs : Bytes) → All IsCodePoint cs → utf8 cs ≡ ok bs → decode_utf8 bs ≡ ok cs
unfolding utf8 decode_utf8 decode_from
decode_utf8-utf8 [] bs h e = rw (← ok-injective e)
decode_utf8-utf8 (c ∷ cs) bs (hc, h) e =
    let (head, e1, e2) = >>=-eq-ok (utf8_char c) _ e in
    let (rest, e3, e4) = >>=-eq-ok (utf8 cs) _ e2 in
    rw (
      ← ok-injective e4,
      char-read c rest head hc e1,
      let read : decode_from rest 0 0 0 ≡ ok cs = decode_utf8-utf8 cs rest h e3 in read,
    )
