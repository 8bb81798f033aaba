-- ===== src/Algorithms/JwkNumbers/Reading.antt =====
-- Round trips of the number and byte entries of a JWK in jwt/algorithms.py.
use pyjwt.Prelude.{ℕ, ◌^◌, ◌<◌, ◌≡◌, ap, ◌∙◌, none, some, String}
use pyjwt.Errors.{ok}
use pyjwt.Errors.Bind.{>>=-eq-ok}
use pyjwt.Value.{Value, str}
use pyjwt.Utils.Text.{Bytes, IsBytes, Text, force_bytes}
use pyjwt.Utils.Base64.{base64url_decode, base64url_encode}
use pyjwt.Utils.Base64Laws.{base64url_decode-base64url_encode}
use pyjwt.Utils.Numbers.{from_base64url_uint, bit_length_from, from_bytes}
use pyjwt.Utils.NumbersLaws.{
  number_bytes, number_bytes-IsBytes, from_bytes-number_bytes, to_base64url_uint-number_bytes,
  to_base64url_uint-none, bit_length_from-lt,
}
use pyjwt.Utils.KeyFormats.{codes}
use pyjwt.Utils.Ascii.{decode_ascii-codes, base64url_encode-ascii}
use pyjwt.Algorithms.JwkNumbers.{text_of_value, uint_value, bytes_value}

-- Decoding looks at a text's bytes only.
base64url_decode-str :
    (s : String) (cs : Bytes)
    → force_bytes (Text.str (codes s)) ≡ ok cs
    → base64url_decode (Text.str (codes s)) ≡ base64url_decode (Text.bytes cs)
unfolding base64url_decode force_bytes
base64url_decode-str s cs h = rw h

-- An entry that is made of bytes is read back as them.
pub bytes_value-read :
    (bs : Bytes)
    → IsBytes bs
    → (v : Value) × (bytes_value bs ≡ ok v) × (base64url_decode (text_of_value v) ≡ ok bs)
unfolding bytes_value force_bytes
bytes_value-read bs h =
    let (s, decoded, same, utf) =
      decode_ascii-codes (base64url_encode bs) (base64url_encode-ascii bs h) in
    (
      str s,
      rw decoded,
      rw (base64url_decode-str s (base64url_encode bs) utf, base64url_decode-base64url_encode bs h),
    )

-- A number that is written with a bit length that holds it: the entry decodes to the number's bytes.
pub uint_value-decode :
    (n k : ℕ)
    → n < 2 ^ k
    → (v : Value) × (uint_value n (some k) ≡ ok v)
      × (base64url_decode (text_of_value v) ≡ ok (number_bytes n k))
unfolding uint_value bytes_value
uint_value-decode n k h =
    let (v, made, back) = bytes_value-read (number_bytes n k) (number_bytes-IsBytes n k) in
    (v, rw (to_base64url_uint-number_bytes n k h) made, back)

from_base64url_uint-decode :
    (t : Text) (bs : Bytes)
    → base64url_decode t ≡ ok bs
    → from_base64url_uint t ≡ ok (from_bytes bs)
unfolding from_base64url_uint base64url_decode force_bytes
from_base64url_uint-decode t bs h = let (input, e, h') = >>=-eq-ok (force_bytes t) _ h in rw (e, h')

-- A number that is written without a bit length is read back.
pub uint_value-read :
    (n : ℕ)
    → (v : Value) × (uint_value n none ≡ ok v) × (from_base64url_uint (text_of_value v) ≡ ok n)
unfolding uint_value
uint_value-read n =
    let k = bit_length_from n n in
    let small = bit_length_from-lt n in
    let (v, made, back) = uint_value-decode n k small in
    (
      v,
      rw (to_base64url_uint-none n) made,
      from_base64url_uint-decode (text_of_value v) (number_bytes n k) back
          ∙ ap ok (from_bytes-number_bytes n k small),
    )
