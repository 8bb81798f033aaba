-- ===== src/Utils/NumbersLaws.antt =====
-- Round trips of the number codecs of jwt/utils.py.
use pyjwt.Prelude.{
  ℕ, zero, suc, ◌+◌, ◌-◌, ◌*◌, ◌/◌, ◌%◌, ◌^◌, ◌<◌, ◌≤◌, ◌≡◌, refl, ap, ◌∙◌, none, some, [], ◌∷◌,
  ◌++◌, nat_eq, ltb, true, inl, inr, Bool-cases, length, length-append, All-append, arith,
}
use native.Mathlib.Nat.{pow-suc, pow-le-pow_right, le_trans}
use pyjwt.Prelude.Int.{pos}
use pyjwt.Errors.{ok}
use pyjwt.Utils.Text.{Bytes, IsByte, IsBytes, bytes, force_bytes}
use pyjwt.Utils.Base64.{base64url_encode, base64url_decode}
use pyjwt.Utils.Base64Laws.{base64url_decode-base64url_encode}
use pyjwt.Utils.Numbers.{
  bit_length_from, bit_length, digits, to_bytes, value_from, from_bytes, bytes_from_int,
  or_zero_byte, to_base64url_uint, from_base64url_uint,
}

-- With `n` rounds of halving or more, `n` is below the power of two of its bit length, and no
-- shorter length will do.
pub bit_length_from_bounds :
    (f n : ℕ) → n ≤ f → (n < 2 ^ bit_length_from f n) × (2 ^ bit_length_from f n ≤ 2 * n + (1 - n))
unfolding bit_length_from
bit_length_from_bounds zero n h = omega arith
bit_length_from_bounds (suc f) n h = elim (Bool-cases (nat_eq n 0)) [
  | inl e ↦ rw e (ground arith)
  | inr e ↦ rw (e, pow-suc) (ground (arith, bit_length_from_bounds f (n / 2) (ground arith)))
]

value_from-append :
    (acc : ℕ) (xs ys : Bytes) → value_from acc (xs ++ ys) ≡ value_from (value_from acc xs) ys
unfolding value_from
value_from-append acc [] ys = refl
value_from-append acc (x ∷ xs) ys = value_from-append (acc * 256 + x) xs ys

pub value_from-digits : (k n : ℕ) → n < 256 ^ k → value_from 0 (digits k n) ≡ n
unfolding digits
value_from-digits zero n h = unfold value_from in omega arith
value_from-digits (suc k) n h = rw value_from-append (
    rw (value_from-digits k (n / 256) (omega (arith, pow-suc 256 k)))
      (unfold value_from in omega arith))

pub digits-IsBytes : (k n : ℕ) → IsBytes (digits k n)
unfolding digits
digits-IsBytes zero n = tt
digits-IsBytes (suc k) n = All-append IsByte _ _ (digits-IsBytes k (n / 256)) (omega arith, tt)

pub length-digits : (k n : ℕ) → length (digits k n) ≡ k
unfolding digits
length-digits zero n = refl
length-digits (suc k) n =
    omega (arith, length-append (digits k (n / 256)) (n % 256 ∷ []), length-digits k (n / 256))

pub pow_256 : (m : ℕ) → 256 ^ m ≡ 2 ^ (8 * m)
pow_256 zero = refl
pow_256 (suc m) =
    let e : 8 * suc m ≡ suc (suc (suc (suc (suc (suc (suc (suc (8 * m)))))))) = omega arith in
    rw e (simp pow-suc (omega (arith, pow_256 m)))

-- The default length, in whole bytes, holds the number.
pub lt-bytes_of_bits : (n k : ℕ) → n < 2 ^ k → n < 256 ^ ((k + 7) / 8)
lt-bytes_of_bits n k h =
    rw pow_256
      (le_trans h (pow-le-pow_right (omega arith) {i = k} {j = 8 * ((k + 7) / 8)} (omega arith)))

lt→ltb : (a b : ℕ) → a < b → ltb a b ≡ true
lt→ltb a b h = ground arith

or_zero_byte-IsBytes : (bs : Bytes) → IsBytes bs → IsBytes (or_zero_byte bs)
or_zero_byte-IsBytes [] h = omega arith
or_zero_byte-IsBytes (b ∷ bs) h = h

from_bytes-or_zero_byte : (bs : Bytes) → from_bytes (or_zero_byte bs) ≡ from_bytes bs
unfolding value_from
from_bytes-or_zero_byte [] = refl
from_bytes-or_zero_byte (b ∷ bs) = refl

-- The bytes that stand for a number of at most `k` bits in a JWK.
abbrev pub number_bytes : ℕ → ℕ → Bytes
number_bytes n k = or_zero_byte (digits ((k + 7) / 8) n)

pub number_bytes-IsBytes : (n k : ℕ) → IsBytes (number_bytes n k)
number_bytes-IsBytes n k = or_zero_byte-IsBytes _ (digits-IsBytes ((k + 7) / 8) n)

pub from_bytes-number_bytes : (n k : ℕ) → n < 2 ^ k → from_bytes (number_bytes n k) ≡ n
from_bytes-number_bytes n k h =
    from_bytes-or_zero_byte (digits ((k + 7) / 8) n)
    ∙ value_from-digits ((k + 7) / 8) n (lt-bytes_of_bits n k h)

pub to_base64url_uint-number_bytes :
    (n k : ℕ)
    → n < 2 ^ k
    → to_base64url_uint (pos n) (some k) ≡ ok (base64url_encode (number_bytes n k))
unfolding to_base64url_uint bytes_from_int to_bytes
to_base64url_uint-number_bytes n k h = rw (lt→ltb n (256 ^ ((k + 7) / 8)) (lt-bytes_of_bits n k h))

-- `to_base64url_uint` of a number below 2 ^ k, with the bit length k, is the encoding of the
-- number in the least whole number of bytes for k bits, or of one zero byte if that is none; and
-- `from_base64url_uint` reads the number back.
pub to_base64url_uint-round_trip :
    (n k : ℕ)
    → n < 2 ^ k
    → (enc : Bytes) × (to_base64url_uint (pos n) (some k) ≡ ok enc)
      × (base64url_decode (bytes enc) ≡ ok (or_zero_byte (digits ((k + 7) / 8) n)))
      × (from_base64url_uint (bytes enc) ≡ ok n)
unfolding from_base64url_uint force_bytes
to_base64url_uint-round_trip n k h =
    let bs = number_bytes n k in
    let back = base64url_decode-base64url_encode bs (number_bytes-IsBytes n k) in
    (
      base64url_encode bs,
      to_base64url_uint-number_bytes n k h,
      back,
      rw back (ap ok (from_bytes-number_bytes n k h)),
    )

-- Without a bit length, that of the number is taken.
pub to_base64url_uint-none :
    (n : ℕ)
    → to_base64url_uint (pos n) none ≡ to_base64url_uint (pos n) (some (bit_length_from n n))
unfolding to_base64url_uint bytes_from_int bit_length
to_base64url_uint-none n = refl

pub bit_length_from-lt : (n : ℕ) → n < 2 ^ bit_length_from n n
bit_length_from-lt n = (bit_length_from_bounds n n (omega arith)).0

-- `to_base64url_uint` without a bit length succeeds on every natural number, and
-- `from_base64url_uint` reads the number back.
pub to_base64url_uint-round_trip_default :
    (n : ℕ)
    → (enc : Bytes) × (to_base64url_uint (pos n) none ≡ ok enc)
      × (from_base64url_uint (bytes enc) ≡ ok n)
to_base64url_uint-round_trip_default n =
    let (enc, made, _, back) =
      to_base64url_uint-round_trip n (bit_length_from n n) (bit_length_from-lt n) in
    (enc, to_base64url_uint-none n ∙ made, back)
