-- ===== src/Utils/DerSignatureLaws.antt =====
-- `der_to_raw_signature` and then `raw_to_der_signature` of jwt/utils.py.
use pyjwt.Prelude.{
  ℕ, suc, ◌-◌, ◌*◌, ◌^◌, ◌<◌, ◌≡◌, refl, ap, ◌∙◌, List, [], ◌∷◌, ◌++◌, nat_eq_refl, length,
  length-append, All-append, take, drop, arith,
}
use mathlib.Core.Path.{subst}
use pyjwt.Errors.{ok}
use pyjwt.Utils.Text.{Bytes, IsByte, IsBytes}
use pyjwt.Utils.Numbers.{digits}
use pyjwt.Utils.NumbersLaws.{length-digits, digits-IsBytes, value_from-digits, lt-bytes_of_bits}
use pyjwt.Utils.Signatures.{
  coordinate_bytes, Dss, der_to_raw_signature, raw_to_der_signature, bytes_to_number,
}
use pyjwt.Utils.SignatureLaws.{number_to_bytes-digits, bytes_to_number-suc}

module _ {ℓ} {A : Type ℓ} where
  take-append : (xs ys : List A) → take (length xs) (xs ++ ys) ≡ xs
  take-append [] ys = refl
  take-append (x ∷ xs) ys = ap (λ (zs : List A). x ∷ zs) (take-append xs ys)

  drop-append : (xs ys : List A) → drop (length xs) (xs ++ ys) ≡ ys
  drop-append [] ys = refl
  drop-append (x ∷ xs) ys = drop-append xs ys

-- A number in `suc k` bytes is read back.
bytes_to_number-digits : (k n : ℕ) → n < 256 ^ suc k → bytes_to_number (digits (suc k) n) ≡ ok n
bytes_to_number-digits k n h =
    bytes_to_number-suc k (digits (suc k) n) (length-digits (suc k) n)
    ∙ ap ok (value_from-digits (suc k) n h)

module _ (dss : Dss) (der : Bytes) (r s num_bits k : ℕ)
    (e : coordinate_bytes num_bits ≡ suc k) where
  round_trip :
      dss.decode_dss_signature der ≡ ok (r, s)
      → dss.encode_dss_signature r s ≡ ok der
      → r < 256 ^ suc k
      → s < 256 ^ suc k
      → (raw : Bytes) × (der_to_raw_signature dss der num_bits ≡ ok raw)
        × (length raw ≡ 2 * suc k)
        × IsBytes raw
        × (raw_to_der_signature dss raw num_bits ≡ ok der)
  unfolding raw_to_der_signature der_to_raw_signature
  round_trip decoded encoded small_r small_s =
      let n = suc k in
      let rs = digits n r in
      let ss = digits n s in
      let long : length (rs ++ ss) ≡ 2 * n =
        omega (arith, length-append rs ss, length-digits n r, length-digits n s) in
      let first : take n (rs ++ ss) ≡ rs =
        subst (λ (m : ℕ). take m (rs ++ ss) ≡ rs) (length-digits n r) (take-append rs ss) in
      let second : drop n (rs ++ ss) ≡ ss =
        subst (λ (m : ℕ). drop m (rs ++ ss) ≡ ss) (length-digits n r) (drop-append rs ss) in
      (
        rs ++ ss,
        rw (e, decoded, number_to_bytes-digits k r small_r, number_to_bytes-digits k s small_s),
        long,
        All-append IsByte rs ss (digits-IsBytes n r) (digits-IsBytes n s),
        rw (
          e,
          long,
          nat_eq_refl (2 * n),
          first,
          second,
          bytes_to_number-digits k r small_r,
          bytes_to_number-digits k s small_s,
          encoded,
        ),
      )

-- A DER signature whose two numbers fit into the bits of the curve, one or more, becomes a raw
-- signature, bytes twice as many as those of a coordinate, and that becomes the same DER signature again; the
-- DER must be the one that the package makes of its numbers.
pub raw_to_der_signature-der_to_raw_signature :
    (dss : Dss) (der : Bytes) (r s num_bits : ℕ)
    → 0 < num_bits
    → dss.decode_dss_signature der ≡ ok (r, s)
    → dss.encode_dss_signature r s ≡ ok der
    → r < 2 ^ num_bits
    → s < 2 ^ num_bits
    → (raw : Bytes) × (der_to_raw_signature dss der num_bits ≡ ok raw)
      × (length raw ≡ 2 * coordinate_bytes num_bits)
      × IsBytes raw
      × (raw_to_der_signature dss raw num_bits ≡ ok der)
raw_to_der_signature-der_to_raw_signature dss der r s num_bits some_bits decoded encoded hr hs =
    let k = coordinate_bytes num_bits - 1 in
    let e : coordinate_bytes num_bits ≡ suc k = omega (arith, some_bits) in
    let small_r = subst (λ (m : ℕ). r < 256 ^ m) e (lt-bytes_of_bits r num_bits hr) in
    let small_s = subst (λ (m : ℕ). s < 256 ^ m) e (lt-bytes_of_bits s num_bits hs) in
    let (raw, made, long, are_bytes, back) =
      round_trip dss der r s num_bits k e decoded encoded small_r small_s in
    (raw, made, omega (arith, long, e), are_bytes, back)
