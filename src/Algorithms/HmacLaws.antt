-- ===== src/Algorithms/HmacLaws.antt =====
-- What it means that `HMACAlgorithm.verify` accepts.
use pyjwt.Prelude.{Bool, true, false, ◌≡◌, refl, [], ◌∷◌, nat_eq_refl, arith, ap, ◌||◌, sym, ◌↔◌}
use mathlib.Core.Path.{subst}
use pyjwt.Errors.{ok}
use pyjwt.Errors.Bind.{>>=-eq-ok, raise_if-eq-ok, ok-injective}
use pyjwt.Utils.Text.{Bytes, Text, force_bytes}
use pyjwt.Utils.KeyFormats.{is_pem_format, is_ssh_key}
use pyjwt.Algorithms.{
  Key, secret, Hash, compare_digest, text_of, prepare_hmac_key, hmac_sign, hmac_verify,
}

pub compare_digest-eq : (a b : Bytes) → compare_digest a b ≡ true → a ≡ b
unfolding compare_digest
compare_digest-eq [] [] h = refl
compare_digest-eq [] (b ∷ bs) h = cc
compare_digest-eq (a ∷ as') [] h = cc
compare_digest-eq (a ∷ as') (b ∷ bs) h = ground (arith, compare_digest-eq as' bs)

pub compare_digest_refl : (a : Bytes) → compare_digest a a ≡ true
unfolding compare_digest
compare_digest_refl [] = refl
compare_digest_refl (a ∷ as') = rw (nat_eq_refl, compare_digest_refl as')

||-eq-false : (a b : Bool) → (a || b) ≡ false → (a ≡ false) × (b ≡ false)
||-eq-false a b h = ground arith

module _ {O : Type 0} where
  -- A key that `prepare_key` accepts is the bytes of its text, which are no PEM block and no SSH key.
  pub prepare_hmac_key-eq-ok :
      (key k : Key O)
      → prepare_hmac_key key ≡ ok k
      → (bs : Bytes) × (force_bytes (text_of key) ≡ ok bs)
        × (is_pem_format bs ≡ false)
        × (is_ssh_key bs ≡ false)
        × (k ≡ secret (Text.bytes bs))
  unfolding prepare_hmac_key
  prepare_hmac_key-eq-ok key k h =
      let (bs, e, h1) = >>=-eq-ok (force_bytes (text_of key)) _ h in
      let (t, h2) = raise_if-eq-ok (is_pem_format bs || is_ssh_key bs) _ _ _ h1 in
      let (p, q) = ||-eq-false (is_pem_format bs) (is_ssh_key bs) t in
      (bs, e, p, q, sym (ok-injective h2))

module _ (O : Type 0) where
  -- `verify` accepts a signature exactly when it is the one that `sign` makes.
  pub hmac_verify-hmac_sign :
      (mac : Hash → Bytes → Bytes → Bytes) (h : Hash) (msg bs sig : Bytes)
      → (hmac_verify {O = O} mac h msg (secret (Text.bytes bs)) sig ≡ ok true)
        ↔ (hmac_sign {O = O} mac h msg (secret (Text.bytes bs)) ≡ ok sig)
  unfolding hmac_verify
  hmac_verify-hmac_sign mac h msg bs sig = (
    λ e. ap ok (sym (compare_digest-eq sig _ (ok-injective e))),
    λ e.
        ap ok (
          subst (λ s. compare_digest sig s ≡ true) (sym (ok-injective e))
            (compare_digest_refl sig)),
  )
