-- ===== src/Utils/SignatureLaws.antt =====
-- Round trips of the signature helpers of jwt/utils.py.
use pyjwt.Prelude.{
  ℕ, zero, suc, ◌+◌, ◌*◌, ◌/◌, ◌%◌, ◌^◌, ◌<◌, ◌≤◌, ◌≡◌, refl, ap, sym, ◌∙◌, Bool-cases, inl, inr,
  List, [], ◌∷◌, ◌++◌, ltb, length, append_assoc, append-nil, arith,
}
use mathlib.Core.Path.{subst}
use native.Mathlib.Nat.{mul_assoc, mul_comm, mul-le-mul_right, pow-suc, pow-le-pow_right, le_trans}
use pyjwt.Errors.{ok}
use pyjwt.Errors.Bind.{>>=-eq-ok, ok-injective}
use pyjwt.Utils.Text.{Bytes, IsBytes}
use pyjwt.Utils.Numbers.{bit_length_from, digits, value_from}
use pyjwt.Utils.NumbersLaws.{bit_length_from_bounds, pow_256, value_from-digits, length-digits}
use pyjwt.Utils.Signatures.{
  hex_digits, max, hex_length, padded_hex, a2b_hex, number_to_bytes, bytes_to_number,
}

a2b_hex-append :
    (xs : List ℕ) (bs : Bytes) (a b : ℕ)
    → a2b_hex xs ≡ ok bs
    → a2b_hex (xs ++ a ∷ b ∷ []) ≡ ok (bs ++ (a * 16 + b) ∷ [])
unfolding a2b_hex
a2b_hex-append [] bs a b h = ap (λ (x : Bytes). ok (x ++ (a * 16 + b) ∷ [])) (ok-injective h)
a2b_hex-append (x ∷ []) bs a b h = cc
a2b_hex-append (x ∷ y ∷ xs) bs a b h =
    let (rest, e, h1) = >>=-eq-ok (a2b_hex xs) _ h in
    rw (a2b_hex-append xs rest a b e)
      (ap (λ (x : Bytes). ok (x ++ (a * 16 + b) ∷ [])) (ok-injective h1))

hex_digits-two :
    (m n : ℕ) → hex_digits (suc (suc m)) n ≡ hex_digits m (n / 256) ++ (n / 16 % 16) ∷ (n % 16) ∷ []
unfolding hex_digits
hex_digits-two m n =
    let e : n / 16 / 16 ≡ n / 256 = omega arith in rw e (append_assoc (hex_digits m (n / 256)) _ _)

a2b_hex-hex_digits : (k n : ℕ) → a2b_hex (hex_digits (2 * k) n) ≡ ok (digits k n)
unfolding digits
a2b_hex-hex_digits zero n = unfold a2b_hex hex_digits in refl
a2b_hex-hex_digits (suc k) n =
    let e : 2 * suc k ≡ suc (suc (2 * k)) = omega arith in
    let last : n / 16 % 16 * 16 + n % 16 ≡ n % 256 = omega arith in
    rw (e, hex_digits-two (2 * k) n)
      (a2b_hex-append (hex_digits (2 * k) (n / 256)) (digits k (n / 256)) (n / 16 % 16) (n % 16)
          (a2b_hex-hex_digits k (n / 256))
        ∙ ap (λ (d : ℕ). ok (digits k (n / 256) ++ d ∷ [])) last)

-- A number below 256 ^ k has no more than 8 * k bits.
bit_length-le : (k n : ℕ) → n < 256 ^ k → bit_length_from n n ≤ 8 * k
bit_length-le k n h = elim (Bool-cases (ltb (8 * k) (bit_length_from n n))) [
  | inl t ↦
      let long : suc (8 * k) ≤ bit_length_from n n = ground arith in
      let below = (bit_length_from_bounds n n (omega arith)).1 in
      let above =
        pow-le-pow_right {n = 2} (omega arith) {i = suc (8 * k)} {j = bit_length_from n n} long in
      absurd (omega (arith, pow-suc 2 (8 * k), pow_256 k, h, below, above))
  | inr t ↦ ground arith
]

max-le : (a b : ℕ) → a ≤ b → max a b ≡ b
max-le a b h = ground arith

hex_length-le : (k n : ℕ) → n < 256 ^ suc k → hex_length n ≤ 2 * suc k
hex_length-le k n h = ground (arith, bit_length-le (suc k) n h)

padded_hex-fits : (k n : ℕ) → n < 256 ^ suc k → padded_hex (2 * suc k) n ≡ hex_digits (2 * suc k) n
unfolding padded_hex
padded_hex-fits k n h =
    ap (λ (m : ℕ). hex_digits m n) (max-le (hex_length n) (2 * suc k) (hex_length-le k n h))

pub number_to_bytes-digits :
    (k n : ℕ) → n < 256 ^ suc k → number_to_bytes n (suc k) ≡ ok (digits (suc k) n)
unfolding number_to_bytes
number_to_bytes-digits k n h = rw (padded_hex-fits k n h) (a2b_hex-hex_digits (suc k) n)

digits-append :
    (k acc : ℕ) (bs : Bytes)
    → IsBytes bs
    → digits (k + length bs) (value_from acc bs) ≡ digits k acc ++ bs
unfolding value_from
digits-append k acc [] h = let e : k + 0 ≡ k = omega arith in rw e (sym (append-nil (digits k acc)))
digits-append k acc (b ∷ bs) (hb, h) =
    let e : k + suc (length bs) ≡ suc k + length bs = omega arith in
    let front : (acc * 256 + b) / 256 ≡ acc = omega arith in
    let last : (acc * 256 + b) % 256 ≡ b = omega arith in
    rw e (
      digits-append (suc k) (acc * 256 + b) bs h
      ∙ unfold digits in rw (front, last) (append_assoc (digits k acc) (b ∷ []) bs))

digits-value_from : (bs : Bytes) → IsBytes bs → digits (length bs) (value_from 0 bs) ≡ bs
unfolding digits
digits-value_from bs h =
    let e : 0 + length bs ≡ length bs = omega arith in
    subst (λ (m : ℕ). digits m (value_from 0 bs) ≡ bs) e (digits-append 0 0 bs h)

value_from-lt :
    (acc : ℕ) (bs : Bytes) → IsBytes bs → value_from acc bs < (acc + 1) * 256 ^ length bs
unfolding value_from
value_from-lt acc [] h = omega arith
value_from-lt acc (b ∷ bs) (hb, h) =
    let power = 256 ^ length bs in
    let step : acc * 256 + b + 1 ≤ (acc + 1) * 256 = omega arith in
    let same : (acc + 1) * 256 ^ suc (length bs) ≡ (acc + 1) * 256 * power =
      rw pow-suc (
        ap (λ (x : ℕ). (acc + 1) * x) (mul_comm power 256) ∙ sym (mul_assoc (acc + 1) 256 power)) in
    rw same (le_trans (value_from-lt (acc * 256 + b) bs h) (mul-le-mul_right power step))

pub bytes_to_number-suc :
    (k : ℕ) (bs : Bytes) → length bs ≡ suc k → bytes_to_number bs ≡ ok (value_from 0 bs)
unfolding bytes_to_number
bytes_to_number-suc k [] h = absurd (omega (arith, h))
bytes_to_number-suc k (b ∷ bs) h = refl

-- A number that fits into `k` bytes, `k` at least 1, is written by `number_to_bytes` in exactly `k`
-- bytes, and `bytes_to_number` reads it back.
pub bytes_to_number-number_to_bytes :
    (n k : ℕ)
    → n < 256 ^ suc k
    → (bs : Bytes) × (number_to_bytes n (suc k) ≡ ok bs)
      × (length bs ≡ suc k)
      × (bytes_to_number bs ≡ ok n)
bytes_to_number-number_to_bytes n k h = (
  digits (suc k) n,
  number_to_bytes-digits k n h,
  length-digits (suc k) n,
  bytes_to_number-suc k _ (length-digits (suc k) n) ∙ ap ok (value_from-digits (suc k) n h),
)

pub number_to_bytes-value_from :
    (k : ℕ) (bs : Bytes)
    → IsBytes bs
    → length bs ≡ suc k
    → number_to_bytes (value_from 0 bs) (suc k) ≡ ok bs
number_to_bytes-value_from k bs h e =
    let small : value_from 0 bs < 256 ^ suc k =
      subst (λ (m : ℕ). value_from 0 bs < 256 ^ m) e (omega (arith, value_from-lt 0 bs h)) in
    number_to_bytes-digits k (value_from 0 bs) small
    ∙ ap ok (subst (λ (m : ℕ). digits m (value_from 0 bs) ≡ bs) e (digits-value_from bs h))
