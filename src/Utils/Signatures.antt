-- ===== src/Utils/Signatures.antt =====
-- `number_to_bytes`, `bytes_to_number`, `der_to_raw_signature` and `raw_to_der_signature` of
-- jwt/utils.py. A hexadecimal text is the list of its digits' values.
use pyjwt.Prelude.{
  ℕ, zero, suc, ◌+◌, ◌*◌, ◌/◌, ◌%◌, not, List, [], ◌∷◌, ◌++◌, ltb, nat_eq, length, take, drop,
  if◌then◌else◌,
}
use pyjwt.Errors.{Result, ok, raise, raise_if, value_error, binascii_error, ◌>>=◌, ◌>>◌}
use pyjwt.Utils.Text.{Bytes}
use pyjwt.Utils.Numbers.{bit_length_from, value_from}

-- The last `k` hexadecimal digits.
unfoldable pub hex_digits : ℕ → ℕ → List ℕ
hex_digits zero n = []
hex_digits (suc k) n = hex_digits k (n / 16) ++ n % 16 ∷ []

abbrev pub max : ℕ → ℕ → ℕ
max a b = if ltb a b then b else a

-- How many digits a number has; 0 has one.
abbrev pub hex_length : ℕ → ℕ
hex_length n = max 1 ((bit_length_from n n + 3) / 4)

-- "%0*x" % (width, num)
unfoldable pub padded_hex : ℕ → ℕ → List ℕ
padded_hex width num = hex_digits (max (hex_length num) width) num

-- binascii.a2b_hex
unfoldable pub a2b_hex : List ℕ → Result Bytes
a2b_hex [] = ok []
a2b_hex (a ∷ []) = raise binascii_error "Odd-length string"
a2b_hex (a ∷ b ∷ s) = do rest ← a2b_hex s; ok ((a * 16 + b) ∷ rest)

unfoldable pub number_to_bytes : ℕ → ℕ → Result Bytes
number_to_bytes num num_bytes = a2b_hex (padded_hex (2 * num_bytes) num)

-- int(binascii.b2a_hex(string), 16)
unfoldable pub bytes_to_number : Bytes → Result ℕ
bytes_to_number [] = raise value_error "invalid literal for int() with base 16"
bytes_to_number (b ∷ bs) = ok (value_from 0 (b ∷ bs))

-- The bytes of a coordinate, for the curve's `key_size` in bits.
abbrev pub coordinate_bytes : ℕ → ℕ
coordinate_bytes num_bits = (num_bits + 7) / 8

-- The codec of the cryptography package for a pair of numbers in DER; they are taken to be natural.
pub record Dss : Type 0 where
  pub decode_dss_signature : Bytes → Result (ℕ × ℕ)
  pub encode_dss_signature : ℕ → ℕ → Result Bytes

module _ (dss : Dss) where
  unfoldable pub der_to_raw_signature : Bytes → ℕ → Result Bytes
  der_to_raw_signature der_sig num_bits = do
    (r, s) ← dss.decode_dss_signature der_sig
    r_bytes ← number_to_bytes r (coordinate_bytes num_bits)
    s_bytes ← number_to_bytes s (coordinate_bytes num_bits)
    ok (r_bytes ++ s_bytes)

  unfoldable pub raw_to_der_signature : Bytes → ℕ → Result Bytes
  raw_to_der_signature raw_sig num_bits =
      let num_bytes = coordinate_bytes num_bits in
      do
        raise_if (not (nat_eq (length raw_sig) (2 * num_bytes))) value_error "Invalid signature"
        r ← bytes_to_number (take num_bytes raw_sig)
        s ← bytes_to_number (drop num_bytes raw_sig)
        dss.encode_dss_signature r s
