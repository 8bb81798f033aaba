-- ===== src/Utils/Numbers.antt =====
-- `to_base64url_uint`, `from_base64url_uint` and `bytes_from_int` of jwt/utils.py, with Python's
-- `int.bit_length`, `int.to_bytes` and `int.from_bytes` (big-endian, unsigned).
use pyjwt.Prelude.{
  ℕ, zero, suc, ◌+◌, ◌*◌, ◌/◌, ◌%◌, ◌^◌, Option, none, some, [], ◌∷◌, ◌++◌, ltb, nat_eq,
  if◌then◌else◌,
}
use pyjwt.Prelude.Int.{ℤ, pos, negsuc}
use pyjwt.Errors.{Result, ok, raise, value_error, overflow_error, ◌>>=◌}
use pyjwt.Utils.Text.{Bytes, Text, bytes, force_bytes}
use pyjwt.Utils.Base64.{base64url_encode, base64url_decode}

-- The rounds of halving until 0; `n` rounds are enough.
unfoldable pub bit_length_from : ℕ → ℕ → ℕ
bit_length_from zero n = 0
bit_length_from (suc f) n =
    let rest = bit_length_from f (n / 2) in if nat_eq n 0 then 0 else suc rest

unfoldable pub bit_length : ℤ → ℕ
bit_length (pos n) = bit_length_from n n
bit_length (negsuc n) = bit_length_from (suc n) (suc n)

-- The last `k` digits of `n` to the base 256, most significant first.
unfoldable pub digits : ℕ → ℕ → Bytes
digits zero n = []
digits (suc k) n = digits k (n / 256) ++ n % 256 ∷ []

unfoldable pub to_bytes : ℤ → ℕ → Result Bytes
to_bytes (pos n) k =
    if ltb n (256 ^ k) then ok (digits k n) else raise overflow_error "int too big to convert"
to_bytes (negsuc n) k = raise overflow_error "can't convert negative int to unsigned"

-- int.from_bytes(data, "big"), `acc` being the digits that were read.
unfoldable pub value_from : ℕ → Bytes → ℕ
value_from acc [] = acc
value_from acc (b ∷ bs) = value_from (acc * 256 + b) bs

abbrev pub from_bytes : Bytes → ℕ
from_bytes bs = value_from 0 bs

abbrev pub or_bit_length : Option ℕ → ℤ → ℕ
or_bit_length none val = bit_length val
or_bit_length (some n) val = n

unfoldable pub bytes_from_int : ℤ → Option ℕ → Result Bytes
bytes_from_int val bits = to_bytes val ((or_bit_length bits val + 7) / 8)

abbrev pub or_zero_byte : Bytes → Bytes
or_zero_byte [] = 0 ∷ []
or_zero_byte (b ∷ bs) = b ∷ bs

unfoldable pub to_base64url_uint : ℤ → Option ℕ → Result Bytes
to_base64url_uint (negsuc n) bits = raise value_error "Must be a positive integer"
to_base64url_uint (pos n) bits = do
  int_bytes ← bytes_from_int (pos n) bits
  ok (base64url_encode (or_zero_byte int_bytes))

unfoldable pub from_base64url_uint : Text → Result ℕ
from_base64url_uint val = do
  input ← force_bytes val
  data_bytes ← base64url_decode (bytes input)
  ok (from_bytes data_bytes)
