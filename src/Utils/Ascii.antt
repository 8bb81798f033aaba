-- ===== src/Utils/Ascii.antt =====
-- `bytes.decode()` on the ASCII bytes that `base64url_encode` of jwt/utils.py returns.
use Prim.Native.Char.{Char, char, IsScalar}
use pyjwt.Prelude.{ℕ, ◌%◌, ◌<◌, ◌≡◌, refl, String, [], ◌∷◌, ltb, true, All, arith, if◌then◌else◌}
use pyjwt.Errors.{Result, ok, raise, unicode_error, ◌>>=◌}
use pyjwt.Utils.Text.{Bytes, IsBytes, utf8, utf8_char}
use pyjwt.Utils.KeyFormats.{codes}
use pyjwt.Utils.Base64.{base64url_encode}
use pyjwt.Utils.Base64Laws.{IsUrlSafe, base64url_encode-IsUrlSafe}

pub ascii-IsScalar : (n : ℕ) → IsScalar (n % 128)
ascii-IsScalar n = ground arith

abbrev pub ascii_char : ℕ → Char
ascii_char n = char (n % 128) (ascii-IsScalar n)

-- A byte from 128 on is the start of a longer character, which is not modelled.
unfoldable pub decode_ascii : Bytes → Result String
decode_ascii [] = ok String.[]
decode_ascii (c ∷ cs) =
    let rest = decode_ascii cs in
    if ltb c 128
    then (do s ← rest; ok (String.◌∷◌ (ascii_char c) s))
    else raise unicode_error "not ASCII"

-- Decoded ASCII has the same numbers, and encodes as them.
pub decode_ascii-codes :
    (cs : Bytes)
    → All (λ (c : ℕ). c < 128) cs
    → (s : String) × (decode_ascii cs ≡ ok s) × (codes s ≡ cs) × (utf8 (codes s) ≡ ok cs)
unfolding decode_ascii utf8 utf8_char
decode_ascii-codes [] h = (String.[], refl, refl, refl)
decode_ascii-codes (c ∷ cs) (hc, h) =
    let (s, e, k, u) = decode_ascii-codes cs h in
    let low : c % 128 ≡ c = omega arith in
    let small : ltb c 128 ≡ true = ground arith in
    (String.◌∷◌ (ascii_char c) s, rw (small, e), rw (low, k), rw (low, small, u))

IsUrlSafe-lt : (c : ℕ) → IsUrlSafe c → c < 128
IsUrlSafe-lt c h = ground arith

All-IsUrlSafe-lt : (cs : Bytes) → All IsUrlSafe cs → All (λ (c : ℕ). c < 128) cs
All-IsUrlSafe-lt [] h = tt
All-IsUrlSafe-lt (c ∷ cs) (hc, h) = (IsUrlSafe-lt c hc, All-IsUrlSafe-lt cs h)

pub base64url_encode-ascii :
    (bs : Bytes) → IsBytes bs → All (λ (c : ℕ). c < 128) (base64url_encode bs)
base64url_encode-ascii bs h =
    All-IsUrlSafe-lt (base64url_encode bs) (base64url_encode-IsUrlSafe bs h)
