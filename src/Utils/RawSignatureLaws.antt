-- ===== src/Utils/RawSignatureLaws.antt =====
-- `raw_to_der_signature` and then `der_to_raw_signature` of jwt/utils.py.
use pyjwt.Prelude.{
  ℕ, zero, suc, ◌-◌, ◌*◌, ◌<◌, ◌≤◌, ◌≡◌, refl, ap, List, [], ◌∷◌, ◌++◌, nat_eq_refl, length, take,
  drop, All, All-take, arith,
}
use pyjwt.Errors.{ok}
use pyjwt.Utils.Text.{Bytes, IsByte, IsBytes}
use pyjwt.Utils.Numbers.{value_from}
use pyjwt.Utils.Signatures.{
  number_to_bytes, bytes_to_number, coordinate_bytes, Dss, der_to_raw_signature,
  raw_to_der_signature,
}
use pyjwt.Utils.SignatureLaws.{number_to_bytes-value_from, bytes_to_number-suc}

module _ {ℓ} {A : Type ℓ} where
  take-drop : (n : ℕ) (xs : List A) → take n xs ++ drop n xs ≡ xs
  take-drop zero xs = refl
  take-drop (suc n) [] = refl
  take-drop (suc n) (x ∷ xs) = ap (λ (ys : List A). x ∷ ys) (take-drop n xs)

  length-take : (n : ℕ) (xs : List A) → n ≤ length xs → length (take n xs) ≡ n
  length-take zero xs h = refl
  length-take (suc n) [] h = omega (arith, h)
  length-take (suc n) (x ∷ xs) h = ap suc (length-take n xs (omega (arith, h)))

  length-drop : (n : ℕ) (xs : List A) → length (drop n xs) ≡ length xs - n
  length-drop zero xs = omega arith
  length-drop (suc n) [] = omega arith
  length-drop (suc n) (x ∷ xs) = omega (arith, length-drop n xs)

  All-drop {κ} : (P : A → Type κ) (n : ℕ) (xs : List A) → All P xs → All P (drop n xs)
  All-drop P zero xs h = h
  All-drop P (suc n) [] h = tt
  All-drop P (suc n) (x ∷ xs) (p, h) = All-drop P n xs h

-- Decoding gives back the numbers that were encoded.
pub record IsCodec (dss : Dss) : Type 0 where
  pub encodes :
      (r s : ℕ)
      → (der : Bytes) × (dss.encode_dss_signature r s ≡ ok der)
        × (dss.decode_dss_signature der ≡ ok (r, s))

-- A half of a raw signature is written as a number, and read back.
half_numbers :
    (k : ℕ) (half : Bytes)
    → IsBytes half
    → length half ≡ suc k
    → (bytes_to_number half ≡ ok (value_from 0 half))
      × (number_to_bytes (value_from 0 half) (suc k) ≡ ok half)
half_numbers k half h e = (bytes_to_number-suc k half e, number_to_bytes-value_from k half h e)

module _ (dss : Dss) (codec : IsCodec dss) (raw : Bytes) (num_bits k : ℕ) where
  round_trip :
      IsBytes raw
      → coordinate_bytes num_bits ≡ suc k
      → length raw ≡ 2 * suc k
      → (der : Bytes) × (raw_to_der_signature dss raw num_bits ≡ ok der)
        × (der_to_raw_signature dss der num_bits ≡ ok raw)
  unfolding raw_to_der_signature der_to_raw_signature
  round_trip h e len =
      let n = suc k in
      let (r, r') =
        half_numbers k (take n raw) (All-take IsByte n raw h)
          (length-take n raw (omega (arith, len))) in
      let (s, s') =
        half_numbers k (drop n raw) (All-drop IsByte n raw h)
          (omega (arith, length-drop n raw, len)) in
      let (der, encoded, decoded) =
        codec.encodes (value_from 0 (take n raw)) (value_from 0 (drop n raw)) in
      (
        der,
        rw (e, len, nat_eq_refl (2 * suc k), r, s, encoded),
        rw (e, decoded, r', s') (ap ok (take-drop n raw)),
      )

-- A raw signature of the length that the curve asks for becomes a DER signature, and that becomes the
-- same raw signature again; the DER codec must give back the numbers that it encoded, and the curve
-- must have a bit or more.
pub der_to_raw_signature-raw_to_der_signature :
    (dss : Dss) (raw : Bytes) (num_bits : ℕ)
    → IsCodec dss
    → IsBytes raw
    → 0 < num_bits
    → length raw ≡ 2 * coordinate_bytes num_bits
    → (der : Bytes) × (raw_to_der_signature dss raw num_bits ≡ ok der)
      × (der_to_raw_signature dss der num_bits ≡ ok raw)
der_to_raw_signature-raw_to_der_signature dss raw num_bits codec h some_bits len =
    let k = coordinate_bytes num_bits - 1 in
    let e : coordinate_bytes num_bits ≡ suc k = omega (arith, some_bits) in
    round_trip dss codec raw num_bits k h e (omega (arith, len, e))
