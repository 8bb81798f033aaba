-- ===== src/Errors/Bind.antt =====
-- Inversion of fallible code: what holds when a sequence of steps returns.
use pyjwt.Prelude.{
  ◌≡◌, refl, Bool, true, false, String, Bool-cases, ◌↔◌, if◌then◌else◌, ◌⊎◌, inl, inr,
}
use pyjwt.Errors.{
  ErrorClass, Error, Result, ok, err, raise_if, except_raise, isinstance, ◌>>=◌, ◌>>◌,
}

pub >>=-eq-ok {μ ν} :
    {X : Type μ} {Y : Type ν} (step : Result X) (next : X → Result Y) {y : Y}
    → (step >>= next) ≡ ok y
    → (x : X) × (step ≡ ok x) × (next x ≡ ok y)
>>=-eq-ok (err e) next h = cc
>>=-eq-ok (ok x) next h = (x, refl, h)

pub raise_if-eq-ok {ℓ} :
    {B : Type ℓ} (t : Bool) (c : ErrorClass) (m : String) (f : Unit {0} → Result B) {b : B}
    → (raise_if t c m >>= f) ≡ ok b
    → (t ≡ false) × (f tt ≡ ok b)
raise_if-eq-ok true c m f h = cc
raise_if-eq-ok false c m f h = (refl, h)

pub except_raise-eq-ok {ℓ} :
    {A : Type ℓ} (r : Result A) (c c' : ErrorClass) (m : String) {a : A}
    → except_raise r c c' m ≡ ok a
    → r ≡ ok a
except_raise-eq-ok (ok x) c c' m h = h
except_raise-eq-ok (err e) c c' m h = elim (Bool-cases (isinstance e c)) [
  | inl t ↦ let h' = rw t at h in cc
  | inr t ↦ let h' = rw t at h in cc
]

-- Inversion of a raise: either the first step raised, or it returned and the rest raised.
pub >>=-eq-err {ℓ κ} :
    {A : Type ℓ} {B : Type κ} (m : Result A) (f : A → Result B) {e : Error}
    → (m >>= f) ≡ err e
    → (m ≡ err e) ⊎ ((a : A) × (m ≡ ok a) × (f a ≡ err e))
>>=-eq-err (ok a) f h = inr (a, refl, h)
>>=-eq-err (err e) f h = inl (cc)

pub ok-injective {ℓ} : {A : Type ℓ} {a b : A} → ◌≡◌ {A = Result A} (ok a) (ok b) → a ≡ b
ok-injective h = cc

-- Two checks in a row pass when both pass.
pub >>-eq-ok_iff : (m n : Result (Unit {0})) → ((m >> n) ≡ ok tt) ↔ ((m ≡ ok tt) × (n ≡ ok tt))
>>-eq-ok_iff (ok u) n = (λ h. (refl, h), λ h. h.1)
>>-eq-ok_iff (err e) n = (λ h. cc, λ h. let q = h.0 in cc)

pub raise_if-eq-ok_iff :
    (t : Bool) (c : ErrorClass) (m : String) → (raise_if t c m ≡ ok tt) ↔ (t ≡ false)
raise_if-eq-ok_iff true c m = (λ h. cc, λ h. cc)
raise_if-eq-ok_iff false c m = (λ h. refl, λ h. refl)

pub if-eq-ok_iff :
    (b : Bool) (m : Result (Unit {0})) → ((if b then m else ok tt) ≡ ok tt) ↔ (b ≡ true → m ≡ ok tt)
if-eq-ok_iff true m = (λ h _. h, λ h. h refl)
if-eq-ok_iff false m = (λ h e. cc, λ h. refl)

pub >>-ok : (m n : Result (Unit {0})) → m ≡ ok tt → n ≡ ok tt → (m >> n) ≡ ok tt
>>-ok m n h k = (>>-eq-ok_iff m n).1 (h, k)
