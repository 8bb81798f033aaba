-- ===== src/Utils/Base64Laws.antt =====
-- Laws of the base64 helpers of jwt/utils.py.
use pyjwt.Prelude.{
  ℕ, suc, ◌+◌, ◌*◌, ◌/◌, ◌%◌, ◌<◌, ◌≤◌, ◌⊎◌, ◌≡◌, ◌≢◌, refl, ap, [], ◌∷◌, arith, length, All,
  nat_eq, ◌∙◌, false,
}
use pyjwt.Errors.{Result, ok}
use pyjwt.Utils.Text.{Bytes, IsBytes, bytes, force_bytes}
use pyjwt.Utils.Base64.{
  encode_sextet, decode_sextet, to_urlsafe, from_urlsafe, b2a_base64, strip_padding,
  base64url_encode, Decoder, start, feed, pad, step, Step, push, finish, a2b_base64,
  urlsafe_b64decode, add_padding, base64url_decode, skip, emit, stop,
}

-- The character that stands for six bits in a token.
unfoldable pub symbol : ℕ → ℕ
symbol x = to_urlsafe (encode_sextet x)

symbol-ne-pad : (x : ℕ) → x < 64 → symbol x ≢ b'='
unfolding symbol to_urlsafe encode_sextet
symbol-ne-pad x h = ground arith

from_urlsafe-ne-pad : (x : ℕ) → x < 64 → nat_eq (from_urlsafe (symbol x)) b'=' ≡ false
unfolding symbol to_urlsafe encode_sextet from_urlsafe
from_urlsafe-ne-pad x h = ground arith

decode-symbol : (x : ℕ) → x < 64 → decode_sextet (from_urlsafe (symbol x)) ≡ x
unfolding symbol to_urlsafe encode_sextet from_urlsafe decode_sextet
decode-symbol x h = ground arith

step-symbol : (s : Decoder) (x : ℕ) → x < 64 → step s (from_urlsafe (symbol x)) ≡ feed s x
unfolding step
step-symbol s x h = ground (arith, decode-symbol x h, from_urlsafe-ne-pad x h)

abbrev F : ℕ → ℕ
F x = from_urlsafe (symbol x)

-- What a step leaves to do.
abbrev run : Step → Bytes → Result Bytes
run stop cs = ok []
run (skip s) cs = a2b_base64 cs s
run (emit b s) cs = push b (a2b_base64 cs s)

a2b_base64-symbol :
    (s : Decoder) (x : ℕ) (cs : Bytes) → x < 64 → a2b_base64 (F x ∷ cs) s ≡ run (feed s x) cs
unfolding a2b_base64
a2b_base64-symbol s x cs h = ground (arith, step-symbol s x h)

a2b_base64-pad : (s : Decoder) (cs : Bytes) → a2b_base64 (b'=' ∷ cs) s ≡ run (pad s) cs
unfolding a2b_base64 step
a2b_base64-pad s cs = ground arith

-- Four characters of the alphabet decode to the three bytes that their 24 bits make.
a2b_base64-quad :
    (w x y z : ℕ) (rest : Bytes)
    → w < 64
    → x < 64
    → y < 64
    → z < 64
    → a2b_base64 (F w ∷ F x ∷ F y ∷ F z ∷ rest) start
      ≡ push
          (w * 4 + x / 16)
          (push (x % 16 * 16 + y / 4) (push (y % 4 * 64 + z) (a2b_base64 rest start)))
unfolding feed
a2b_base64-quad w x y z rest hw hx hy hz = rw (
  a2b_base64-symbol _ w _ hw,
  a2b_base64-symbol _ x _ hx,
  a2b_base64-symbol _ y _ hy,
  a2b_base64-symbol _ z _ hz,
)

a2b_base64-two :
    (w x : ℕ)
    → w < 64
    → x < 64
    → a2b_base64 (F w ∷ F x ∷ b'=' ∷ b'=' ∷ []) start ≡ ok ((w * 4 + x / 16) ∷ [])
unfolding feed pad
a2b_base64-two w x hw hx =
    rw (a2b_base64-symbol _ w _ hw, a2b_base64-symbol _ x _ hx, a2b_base64-pad, a2b_base64-pad)

a2b_base64-three :
    (w x y : ℕ)
    → w < 64
    → x < 64
    → y < 64
    → a2b_base64 (F w ∷ F x ∷ F y ∷ b'=' ∷ []) start
      ≡ ok ((w * 4 + x / 16) ∷ (x % 16 * 16 + y / 4) ∷ [])
unfolding feed pad
a2b_base64-three w x y hw hx hy = rw (
  a2b_base64-symbol _ w _ hw,
  a2b_base64-symbol _ x _ hx,
  a2b_base64-symbol _ y _ hy,
  a2b_base64-pad,
)

-- The characters of an encoding.
unfoldable pub symbols : Bytes → Bytes
symbols [] = []
symbols (a ∷ []) = symbol (a / 4) ∷ symbol (a % 4 * 16) ∷ []
symbols (a ∷ b ∷ []) = symbol (a / 4) ∷ symbol (a % 4 * 16 + b / 16) ∷ symbol (b % 16 * 4) ∷ []
symbols (a ∷ b ∷ c ∷ rest) =
    symbol (a / 4)
    ∷ symbol (a % 4 * 16 + b / 16)
    ∷ symbol (b % 16 * 4 + c / 64)
    ∷ symbol (c % 64)
    ∷ symbols rest

strip_padding-symbol :
    (x : ℕ) (s : Bytes)
    → x < 64
    → strip_padding (to_urlsafe (encode_sextet x) ∷ s) ≡ symbol x ∷ strip_padding s
unfolding strip_padding symbol
strip_padding-symbol x s h = ground (arith, symbol-ne-pad x h)

strip_padding-nil : strip_padding [] ≡ []
unfolding strip_padding
strip_padding-nil = refl

-- `base64url_encode` spells each group of three bytes, and its rest, by characters of the alphabet.
pub base64url_encode-symbols : (bs : Bytes) → IsBytes bs → base64url_encode bs ≡ symbols bs
unfolding base64url_encode b2a_base64 symbols
base64url_encode-symbols [] h = strip_padding-nil
base64url_encode-symbols (a ∷ []) (ha, _) =
    rw
      (
        strip_padding-symbol (a / 4) _ (omega arith),
        strip_padding-symbol (a % 4 * 16) _ (omega arith),
      )
      (unfold strip_padding to_urlsafe in refl)
base64url_encode-symbols (a ∷ b ∷ []) (ha, (hb, _)) =
    rw
      (
        strip_padding-symbol (a / 4) _ (omega arith),
        strip_padding-symbol (a % 4 * 16 + b / 16) _ (omega arith),
        strip_padding-symbol (b % 16 * 4) _ (omega arith),
      )
      (unfold strip_padding to_urlsafe in refl)
base64url_encode-symbols (a ∷ b ∷ c ∷ rest) (ha, (hb, (hc, h))) =
    rw
      (
        strip_padding-symbol (a / 4) _ (omega arith),
        strip_padding-symbol (a % 4 * 16 + b / 16) _ (omega arith),
        strip_padding-symbol (b % 16 * 4 + c / 64) _ (omega arith),
        strip_padding-symbol (c % 64) _ (omega arith),
      )
      (ap
        (λ t.
          symbol (a / 4)
          ∷ symbol (a % 4 * 16 + b / 16)
          ∷ symbol (b % 16 * 4 + c / 64)
          ∷ symbol (c % 64)
          ∷ t)
        (base64url_encode-symbols rest h))

add_padding-quad :
    (a b c d : ℕ) (s : Bytes) → add_padding (a ∷ b ∷ c ∷ d ∷ s) ≡ a ∷ b ∷ c ∷ d ∷ add_padding s
unfolding add_padding
add_padding-quad a b c d s =
    let e : suc (suc (suc (suc (length s)))) % 4 ≡ length s % 4 = omega arith in rw e (ground arith)

-- The padded characters of an encoding decode to its bytes.
urlsafe_b64decode-symbols :
    (bs : Bytes) → IsBytes bs → urlsafe_b64decode (add_padding (symbols bs)) ≡ ok bs
unfolding urlsafe_b64decode symbols
urlsafe_b64decode-symbols [] h = unfold add_padding a2b_base64 finish in refl
urlsafe_b64decode-symbols (a ∷ []) (ha, _) =
    unfold add_padding from_urlsafe in
    (a2b_base64-two (a / 4) (a % 4 * 16) (omega arith) (omega arith)
      ∙ ap (λ t. ok (t ∷ [])) (omega arith))
urlsafe_b64decode-symbols (a ∷ b ∷ []) (ha, (hb, _)) =
    unfold add_padding from_urlsafe in
    (a2b_base64-three (a / 4) (a % 4 * 16 + b / 16) (b % 16 * 4) (omega arith) (omega arith)
        (omega arith)
      ∙ ground arith)
urlsafe_b64decode-symbols (a ∷ b ∷ c ∷ rest) (ha, (hb, (hc, h))) = rw add_padding-quad (
    rw
      (
        a2b_base64-quad (a / 4) (a % 4 * 16 + b / 16) (b % 16 * 4 + c / 64) (c % 64) _ (omega arith)
            (omega arith) (omega arith) (omega arith),
        urlsafe_b64decode-symbols rest h,
      )
      (ground arith))

-- `base64url_decode` gives back the bytes that `base64url_encode` encoded, whatever their number.
pub base64url_decode-base64url_encode :
    (bs : Bytes) → IsBytes bs → base64url_decode (bytes (base64url_encode bs)) ≡ ok bs
unfolding base64url_decode force_bytes
base64url_decode-base64url_encode bs h =
    rw (base64url_encode-symbols bs h) (urlsafe_b64decode-symbols bs h)

-- The characters of a token's segments: letters, digits, "-" and "_".
abbrev pub IsUrlSafe : ℕ → Type 0
IsUrlSafe c =
    ((b'A' ≤ c) × (c ≤ b'Z'))
    ⊎ ((b'a' ≤ c) × (c ≤ b'z'))
    ⊎ ((b'0' ≤ c) × (c ≤ b'9'))
    ⊎ (c ≡ b'-')
    ⊎ (c ≡ b'_')

symbol-IsUrlSafe : (x : ℕ) → x < 64 → IsUrlSafe (symbol x)
unfolding symbol to_urlsafe encode_sextet
symbol-IsUrlSafe x h = ground arith

symbols-IsUrlSafe : (bs : Bytes) → IsBytes bs → All IsUrlSafe (symbols bs)
unfolding symbols
symbols-IsUrlSafe [] h = tt
symbols-IsUrlSafe (a ∷ []) (ha, _) =
    (symbol-IsUrlSafe _ (omega arith), (symbol-IsUrlSafe _ (omega arith), tt))
symbols-IsUrlSafe (a ∷ b ∷ []) (ha, (hb, _)) = (
  symbol-IsUrlSafe _ (omega arith),
  (symbol-IsUrlSafe _ (omega arith), (symbol-IsUrlSafe _ (omega arith), tt)),
)
symbols-IsUrlSafe (a ∷ b ∷ c ∷ rest) (ha, (hb, (hc, h))) = (
  symbol-IsUrlSafe _ (omega arith),
  (
    symbol-IsUrlSafe _ (omega arith),
    (
      symbol-IsUrlSafe _ (omega arith),
      (symbol-IsUrlSafe _ (omega arith), symbols-IsUrlSafe rest h),
    ),
  ),
)

-- What `base64url_encode` makes of bytes has only letters, digits, "-" and "_": no dot and no
-- padding.
pub base64url_encode-IsUrlSafe : (bs : Bytes) → IsBytes bs → All IsUrlSafe (base64url_encode bs)
base64url_encode-IsUrlSafe bs h = rw (base64url_encode-symbols bs h) (symbols-IsUrlSafe bs h)
