-- ===== src/Utils/Base64.antt =====
-- `base64url_encode` and `base64url_decode` of jwt/utils.py, over the base64 codec of Python's
-- standard library: `urlsafe_b64encode`, and the lenient decoder of `binascii.a2b_base64`, which
-- skips characters outside the alphabet.
use pyjwt.Prelude.{
  ℕ, ◌+◌, ◌-◌, ◌*◌, ◌/◌, ◌%◌, [], ◌∷◌, ◌++◌, map, ltb, leb, nat_eq, ◌&&◌, length, replicate,
  if◌then◌else◌,
}
use pyjwt.Errors.{Result, ok, err, raise, binascii_error, ◌>>=◌}
use pyjwt.Utils.Text.{Bytes, Text, force_bytes}

-- The standard alphabet, from 0..63.
unfoldable pub encode_sextet : ℕ → ℕ
encode_sextet x =
    if ltb x 26
    then x + b'A'
    else if ltb x 52
    then x + 71
    else if ltb x 62
    then x - 4
    else if nat_eq x 62
    then b'+'
    else b'/'

-- Its inverse; 64 stands for a character outside the alphabet.
unfoldable pub decode_sextet : ℕ → ℕ
decode_sextet c =
    if leb b'A' c && leb c b'Z'
    then c - b'A'
    else if leb b'a' c && leb c b'z'
    then c - 71
    else if leb b'0' c && leb c b'9'
    then c + 4
    else if nat_eq c b'+'
    then 62
    else if nat_eq c b'/'
    then 63
    else 64

-- `bytes.translate` from "+/" to "-_", and back.
unfoldable pub to_urlsafe : ℕ → ℕ
to_urlsafe c = if nat_eq c b'+' then b'-' else if nat_eq c b'/' then b'_' else c

unfoldable pub from_urlsafe : ℕ → ℕ
from_urlsafe c = if nat_eq c b'-' then b'+' else if nat_eq c b'_' then b'/' else c

unfoldable pub b2a_base64 : Bytes → Bytes
b2a_base64 [] = []
b2a_base64 (a ∷ []) = encode_sextet (a / 4) ∷ encode_sextet (a % 4 * 16) ∷ b'=' ∷ b'=' ∷ []
b2a_base64 (a ∷ b ∷ []) =
    encode_sextet (a / 4)
    ∷ encode_sextet (a % 4 * 16 + b / 16)
    ∷ encode_sextet (b % 16 * 4)
    ∷ b'='
    ∷ []
b2a_base64 (a ∷ b ∷ c ∷ rest) =
    encode_sextet (a / 4)
    ∷ encode_sextet (a % 4 * 16 + b / 16)
    ∷ encode_sextet (b % 16 * 4 + c / 64)
    ∷ encode_sextet (c % 64)
    ∷ b2a_base64 rest

-- s.replace(b"=", b"")
unfoldable pub strip_padding : Bytes → Bytes
strip_padding [] = []
strip_padding (c ∷ s) = let rest = strip_padding s in if nat_eq c b'=' then rest else c ∷ rest

unfoldable pub base64url_encode : Bytes → Bytes
base64url_encode input = strip_padding (map to_urlsafe (b2a_base64 input))

-- The state of the decoder: the place in the group of four, the bits that are left over, the
-- padding seen.
pub record Decoder : Type 0 where
  pub quad : ℕ
  pub left : ℕ
  pub pads : ℕ

pub data Step : Type 0 where
  stop : Step
  skip : Decoder → Step
  emit : ℕ → Decoder → Step

abbrev at : ℕ → ℕ → Decoder
at q l = record { quad = q; left = l; pads = 0 }

abbrev pub start : Decoder
start = at 0 0

unfoldable pub feed : Decoder → ℕ → Step
feed s v =
    if nat_eq s.quad 0
    then skip (at 1 v)
    else if nat_eq s.quad 1
    then emit (s.left * 4 + v / 16) (at 2 (v % 16))
    else if nat_eq s.quad 2
    then emit (s.left * 16 + v / 4) (at 3 (v % 4))
    else emit (s.left * 64 + v) (at 0 0)

unfoldable pub pad : Decoder → Step
pad s =
    if leb 2 s.quad
    then (if leb 4 (s.quad + (s.pads + 1)) then stop else skip (record s { pads = s.pads + 1 }))
    else skip s

unfoldable pub step : Decoder → ℕ → Step
step s c =
    if nat_eq c b'='
    then pad s
    else if leb 64 (decode_sextet c)
    then skip s
    else feed s (decode_sextet c)

abbrev pub push : ℕ → Result Bytes → Result Bytes
push b (ok bs) = ok (b ∷ bs)
push b (err e) = err e

unfoldable pub finish : Decoder → Result Bytes
finish s =
    if nat_eq s.quad 0
    then ok []
    else if nat_eq s.quad 1
    then raise binascii_error "number of data characters cannot be 1 more than a multiple of 4"
    else raise binascii_error "Incorrect padding"

unfoldable pub a2b_base64 : Bytes → Decoder → Result Bytes
a2b_base64 [] s = finish s
a2b_base64 (c ∷ cs) s = elim (step s c) [
  | stop ↦ ok []
  | skip s' ↦ a2b_base64 cs s'
  | emit b s' ↦ push b (a2b_base64 cs s')
]

unfoldable pub urlsafe_b64decode : Bytes → Result Bytes
urlsafe_b64decode s = a2b_base64 (map from_urlsafe s) start

unfoldable pub add_padding : Bytes → Bytes
add_padding s = let rem = length s % 4 in if ltb 0 rem then s ++ replicate (4 - rem) b'=' else s

unfoldable pub base64url_decode : Text → Result Bytes
base64url_decode input = do
  input_bytes ← force_bytes input
  urlsafe_b64decode (add_padding input_bytes)
