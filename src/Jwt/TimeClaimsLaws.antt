-- ===== src/Jwt/TimeClaimsLaws.antt =====
-- `convert_times` of jwt/api_jwt.py's `encode` does what the specification of written claims says.
use mathlib.Core.Path.{subst}
use pyjwt.Prelude.{
  ◌/◌, Bool, true, false, ◌≡◌, ◌≢◌, inl, inr, refl, ap, ◌∙◌, none, String, ◌==◌, ◌||◌, arith,
  eq_iff, Bool-cases, if◌then◌else◌,
}
use pyjwt.Prelude.Int.{ℤ, pos, negsuc}
use pyjwt.Value.{
  Value, Dict, null, bool, int, float, str, list, dict, datetime, empty, entry, lookup, get, set,
}
use pyjwt.Value.DictLaws.{IsUnique}
use pyjwt.Jwt.Numbers.{million}
use pyjwt.Jwt.Encode.{timegm, as_int_date, convert_times, time_claims}
use pyjwt.Jwt.TimeClaims.{IsSecondOf, IsWritten, time, as_it_is, AreWritten, none_left, one_more}

timegm-IsSecondOf : (t s : ℤ) → IsSecondOf t s → timegm t ≡ s
unfolding timegm
timegm-IsSecondOf (pos t) (pos s) h = let e : t / million ≡ s = omega (arith, h.0, h.1) in rw e
timegm-IsSecondOf (negsuc t) (negsuc s) h =
    let e : t / million ≡ s = omega (arith, h.0, h.1) in rw e
timegm-IsSecondOf (pos t) (negsuc s) h = absurd h
timegm-IsSecondOf (negsuc t) (pos s) h = absurd h

-- What the step for one claim makes of the value of that claim, and of any.
abbrev as_date : Value → Value
as_date (datetime t) = int (timegm t)
as_date v = v

abbrev convert_if : Bool → Value → Value
convert_if b v = if b then as_date v else v

-- The step for one claim, on every entry.
convert_one : String → Dict → Dict
convert_one claim empty = empty
convert_one claim (entry k v d) = entry k (convert_if (k == claim) v) (convert_one claim d)

lookup-convert_one :
    (claim k : String) (d : Dict) → lookup k d ≡ none → lookup k (convert_one claim d) ≡ none
unfolding lookup convert_one
lookup-convert_one claim k empty h = refl
lookup-convert_one claim k (entry j v d) h = elim (Bool-cases (j == k)) [
  | inl e ↦ let h' = rw e at h in cc
  | inr e ↦ rw e (lookup-convert_one claim k d (rw e at h))
]

convert_one-IsUnique : (claim : String) (d : Dict) → IsUnique d → IsUnique (convert_one claim d)
unfolding convert_one
convert_one-IsUnique claim empty h = tt
convert_one-IsUnique claim (entry k v d) (fresh, h) =
    (lookup-convert_one claim k d fresh, convert_one-IsUnique claim d h)

convert_one-absent : (claim : String) (d : Dict) → lookup claim d ≡ none → convert_one claim d ≡ d
unfolding lookup convert_one
convert_one-absent claim empty h = refl
convert_one-absent claim (entry k v d) h = elim (Bool-cases (k == claim)) [
  | inl e ↦ let h' = rw e at h in cc
  | inr e ↦ rw (e, convert_one-absent claim d (rw e at h))
]

as_int_date-here :
    (claim k : String) (v : Value) (d : Dict)
    → (k == claim) ≡ true
    → as_int_date v claim (entry k v d) ≡ entry k (as_date v) d
unfolding set
as_int_date-here claim k (datetime t) d e = rw e
as_int_date-here claim k null d e = refl
as_int_date-here claim k (bool b) d e = refl
as_int_date-here claim k (int n) d e = refl
as_int_date-here claim k (float x) d e = refl
as_int_date-here claim k (str s) d e = refl
as_int_date-here claim k (list vs) d e = refl
as_int_date-here claim k (dict x) d e = refl

as_int_date-below :
    (claim k : String) (v w : Value) (d : Dict)
    → (k == claim) ≡ false
    → as_int_date v claim (entry k w d) ≡ entry k w (as_int_date v claim d)
unfolding set
as_int_date-below claim k (datetime t) w d e = rw e
as_int_date-below claim k null w d e = refl
as_int_date-below claim k (bool b) w d e = refl
as_int_date-below claim k (int n) w d e = refl
as_int_date-below claim k (float x) w d e = refl
as_int_date-below claim k (str s) w d e = refl
as_int_date-below claim k (list vs) w d e = refl
as_int_date-below claim k (dict x) w d e = refl

as_int_date-convert_one :
    (claim : String) (d : Dict)
    → IsUnique d
    → as_int_date (get d claim) claim d ≡ convert_one claim d
unfolding lookup convert_one
as_int_date-convert_one claim empty h = refl
as_int_date-convert_one claim (entry k v d) (fresh, h) = elim (Bool-cases (k == claim)) [
  | inl e ↦
      let absent = subst (λ (x : String). lookup x d ≡ none) ((eq_iff k claim).0 e) fresh in
      rw (e, convert_one-absent claim d absent, as_int_date-here claim k v d e)
  | inr e ↦ rw (e, as_int_date-below claim k (get d claim) v d e, as_int_date-convert_one claim d h)
]

-- All three claims, on every entry.
convert_times-convert_one :
    (d : Dict)
    → IsUnique d
    → convert_times time_claims d ≡ convert_one "nbf" (convert_one "iat" (convert_one "exp" d))
unfolding convert_times
convert_times-convert_one d h =
    let h1 = convert_one-IsUnique "exp" d h in
    let h2 = convert_one-IsUnique "iat" (convert_one "exp" d) h1 in
    rw (
      as_int_date-convert_one "exp" d h,
      as_int_date-convert_one "iat" (convert_one "exp" d) h1,
      as_int_date-convert_one "nbf" (convert_one "iat" (convert_one "exp" d)) h2,
    )

convert_if-same : (b : Bool) (v : Value) → as_date v ≡ v → convert_if b v ≡ v
convert_if-same true v h = h
convert_if-same false v h = refl

as_date-same : (v : Value) → ((t : ℤ) → v ≢ datetime t) → as_date v ≡ v
as_date-same (datetime t) h = absurd (h t refl)
as_date-same null h = refl
as_date-same (bool b) h = refl
as_date-same (int n) h = refl
as_date-same (float x) h = refl
as_date-same (str s) h = refl
as_date-same (list vs) h = refl
as_date-same (dict x) h = refl

abbrev convert_each : Bool → Bool → Bool → Value → Value
convert_each a b c v = convert_if c (convert_if b (convert_if a v))

convert_each-time :
    (a b c : Bool) (t : ℤ)
    → (a || (b || c)) ≡ true
    → convert_each a b c (datetime t) ≡ int (timegm t)
convert_each-time true true true t h = refl
convert_each-time true true false t h = refl
convert_each-time true false true t h = refl
convert_each-time true false false t h = refl
convert_each-time false true true t h = refl
convert_each-time false true false t h = refl
convert_each-time false false true t h = refl
convert_each-time false false false t h = cc

convert_each-off : (a b c : Bool) (v : Value) → (a || (b || c)) ≡ false → convert_each a b c v ≡ v
convert_each-off false false false v h = refl
convert_each-off true b c v h = cc
convert_each-off false true c v h = cc
convert_each-off false false true v h = cc

convert_each-IsWritten :
    (k : String) (v w : Value)
    → IsWritten k v w
    → convert_each (k == "exp") (k == "iat") (k == "nbf") v ≡ w
convert_each-IsWritten k _ _ (time t s on h) =
    convert_each-time (k == "exp") (k == "iat") (k == "nbf") t on ∙ ap int (timegm-IsSecondOf t s h)
convert_each-IsWritten k v _ (as_it_is _ (inl off)) =
    convert_each-off (k == "exp") (k == "iat") (k == "nbf") v off
convert_each-IsWritten k v _ (as_it_is _ (inr h)) =
    let same = λ (b : Bool). convert_if-same b v (as_date-same v h) in
    rw (same (k == "exp"), same (k == "iat"), same (k == "nbf"))

convert_one-AreWritten :
    (d e : Dict) → AreWritten d e → convert_one "nbf" (convert_one "iat" (convert_one "exp" d)) ≡ e
unfolding convert_one
convert_one-AreWritten _ _ none_left = refl
convert_one-AreWritten _ _ (one_more {d} {e} {v} {w} k h hs) =
    rw (convert_each-IsWritten k v w h, convert_one-AreWritten d e hs)

pub convert_times-AreWritten :
    (d e : Dict) → IsUnique d → AreWritten d e → convert_times time_claims d ≡ e
convert_times-AreWritten d e unique h =
    convert_times-convert_one d unique ∙ convert_one-AreWritten d e h
