-- ===== src/Algorithms/KeyChecks.antt =====
-- What `check_crypto_key_type` and the try statements of jwt/algorithms.py let through.
use mathlib.Core.Path.{subst}
use pyjwt.Prelude.{true, ◌≡◌, refl, ◌⊎◌, inl, inr, some, List, Bool-cases, arith}
use pyjwt.Errors.{ErrorClass, Result, ok, err, except_try, isinstance, signature_mismatch}
use pyjwt.Errors.Bind.{>>=-eq-ok, ok-injective}
use pyjwt.Algorithms.{Key, object}
use pyjwt.Algorithms.Crypto.{
  Cryptography, KeyClass, is_one_of, check_crypto_key_type, load_checked, accepted,
}

pub except_try-eq-ok {ℓ} :
    {A : Type ℓ} (r : Result A) (cls : ErrorClass) (body : Result A) {a : A}
    → except_try r cls body ≡ ok a
    → (r ≡ ok a) ⊎ (body ≡ ok a)
except_try-eq-ok (ok x) cls body h = inl h
except_try-eq-ok (err e) cls body h = elim (Bool-cases (isinstance e cls)) [
  | inl t ↦ let h' = rw t at h in inr h'
  | inr t ↦ let h' = rw t at h in cc
]

pub accepted-eq-true : (r : Result (Unit {0})) → accepted r ≡ ok true → r ≡ ok tt
accepted-eq-true (ok tt) h = refl
accepted-eq-true (err e) h = elim (Bool-cases (isinstance e signature_mismatch)) [
  | inl t ↦ let h' = rw t at h in cc
  | inr t ↦ let h' = rw t at h in cc
]

pub check_crypto_key_type-eq-ok :
    (types : List KeyClass) (k : KeyClass)
    → check_crypto_key_type true (some types) k ≡ ok tt
    → is_one_of k types ≡ true
unfolding check_crypto_key_type
check_crypto_key_type-eq-ok types k h = ground arith

module _ {O : Type 0} (c : Cryptography O) (types : List KeyClass) where
  -- A key object of one of the classes.
  abbrev pub HasClass : Key O → Type 0
  HasClass key = (o : O) × (key ≡ object o) × (is_one_of (c.class_of o) types ≡ true)

  pub load_checked-HasClass :
      (loaded : Result O) (o : O)
      → load_checked c types loaded ≡ ok o
      → is_one_of (c.class_of o) types ≡ true
  unfolding load_checked
  load_checked-HasClass loaded o h =
      let (key, e, h1) = >>=-eq-ok loaded _ h in
      let (u, checked, same) =
        >>=-eq-ok (check_crypto_key_type true (some types) (c.class_of key)) _ h1 in
      subst (λ (x : O). is_one_of (c.class_of x) types ≡ true) (ok-injective same)
        (check_crypto_key_type-eq-ok types (c.class_of key) checked)
