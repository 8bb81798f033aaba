-- ===== src/Jwt/AudienceLaws.antt =====
-- The check of "aud" of jwt/api_jwt.py.
use pyjwt.Prelude.{
  Bool, true, false, ◌≡◌, ◌≢◌, ◌↔◌, inl, inr, refl, ap, String, Option, none, some, List, [], ◌∷◌,
  ◌==◌, not, ◌||◌, is_in, arith, eq_iff, eq_refl, iff_trans, Bool-cases, if◌then◌else◌,
}
use pyjwt.Errors.{ErrorClass, Result, ok, raise_if, ◌>>◌}
use pyjwt.Errors.Bind.{>>-eq-ok_iff, raise_if-eq-ok_iff}
use pyjwt.Value.{
  Value, Items, Dict, null, bool, int, float, str, list, dict, datetime, nil, cons, get, lookup,
  truthy, or_default, is_found,
}
use pyjwt.Jwt.Claims.{
  Audience, unspecified, one, many, not_iterable, all_str, item_in, any_in, audiences,
  audience_claims, is_iterable, check_strict, match_audience, validate_aud,
}
use pyjwt.Jwt.ClaimsSpec.{IsFor, IsMeantFor, Meets}

any_in-Meets : (auds : List String) (claims : Items) → any_in auds claims ≡ true → Meets auds claims
any_in-Meets [] claims h = cc
any_in-Meets (a ∷ auds) claims h = elim (Bool-cases (item_in a claims)) [
  | inl e ↦ (a, rw (eq_refl a), e)
  | inr e ↦ let (b, p, q) = any_in-Meets auds claims (rw e at h) in (b, ground (arith, p), q)
]

Meets-any_in :
    (auds : List String) (claims : Items) (a : String)
    → is_in a auds ≡ true
    → item_in a claims ≡ true
    → any_in auds claims ≡ true
Meets-any_in [] claims a p q = cc
Meets-any_in (b ∷ auds) claims a p q = ground (arith, Meets-any_in auds claims a, eq_iff b a, q)

pub of_not : (b : Bool) → not b ≡ false → b ≡ true
of_not true h = refl
of_not false h = cc

-- Matching without strict mode, on a truthy claim.
match_iff :
    (audience : Audience) (claims : Items)
    → is_iterable audience ≡ true
    → (match_audience audience (list claims) ≡ ok tt)
      ↔ ((all_str claims ≡ true) × Meets (audiences audience) claims)
match_iff audience claims it = (
  λ h.
      let (e, h1) = (>>-eq-ok_iff (raise_if (not (all_str claims)) _ _) _).0 h in
      let (e', h2) = (>>-eq-ok_iff (raise_if (not (is_iterable audience)) _ _) _).0 h1 in
      (
        of_not (all_str claims) ((raise_if-eq-ok_iff _ _ _).0 e),
        any_in-Meets (audiences audience) claims
            (of_not (any_in (audiences audience) claims) ((raise_if-eq-ok_iff _ _ _).0 h2)),
      ),
  λ (e, (a, p, q)). rw (e, it, Meets-any_in (audiences audience) claims a p q),
)

-- The claim is missing, or empty.
abbrev absent : Option Value → Bool
absent o = not (is_found o) || not (truthy (or_default o null))

absent_iff : (o : Option Value) → (not (absent o) ≡ false) ↔ (truthy (or_default o null) ≡ false)
absent_iff none = (λ h. refl, λ h. refl)
absent_iff (some v) = ground arith

-- The claim, once it is known to be there.
module _ (auds : List String) (audience : Audience) (it : is_iterable audience ≡ true)
    (same : audiences audience ≡ auds) where
  IsFor-iff :
      (v : Value)
      → truthy v ≡ true
      → (match_audience audience (audience_claims v) ≡ ok tt) ↔ IsFor auds v
  IsFor-iff null h = (λ e. cc, λ e. absurd e)
  IsFor-iff (bool b) h = (λ e. cc, λ e. absurd e)
  IsFor-iff (int n) h = (λ e. cc, λ e. absurd e)
  IsFor-iff (float x) h = (λ e. cc, λ e. absurd e)
  IsFor-iff (dict d) h = (λ e. cc, λ e. absurd e)
  IsFor-iff (datetime t) h = (λ e. cc, λ e. absurd e)
  IsFor-iff (list claims) h = rw (← same) (match_iff audience claims it)
  IsFor-iff (str s) h = (
    λ e.
        let (_, (a, p, q)) = (match_iff audience (cons (str s) nil) it).0 e in
        (λ z. ground (arith, eq_iff s ""), rw (← same) (ground (arith, eq_iff s a))),
    λ (_, k).
        (match_iff audience (cons (str s) nil) it).1 (refl, (s, rw same k, rw (eq_refl s) refl)),
  )

IsFor-truthy : (auds : List String) (v : Value) → IsFor auds v → truthy v ≡ true
IsFor-truthy auds null h = absurd h
IsFor-truthy auds (bool b) h = absurd h
IsFor-truthy auds (int n) h = absurd h
IsFor-truthy auds (float x) h = absurd h
IsFor-truthy auds (dict d) h = absurd h
IsFor-truthy auds (datetime t) h = absurd h
IsFor-truthy auds (list nil) (_, (a, p, q)) = cc
IsFor-truthy auds (list (cons v vs)) h = refl
IsFor-truthy auds (str s) (ne, _) = ground (arith, eq_iff s "", ne)

strict_iff :
    (s : String) (v : Value)
    → truthy v ≡ true
    → (check_strict (one s) v ≡ ok tt) ↔ ((s ≢ "") × (v ≡ str s))
strict_iff s null h = (λ e. cc, λ (_, e). cc)
strict_iff s (bool b) h = (λ e. cc, λ (_, e). cc)
strict_iff s (int n) h = (λ e. cc, λ (_, e). cc)
strict_iff s (float x) h = (λ e. cc, λ (_, e). cc)
strict_iff s (dict d) h = (λ e. cc, λ (_, e). cc)
strict_iff s (datetime t) h = (λ e. cc, λ (_, e). cc)
strict_iff s (list vs) h = (λ e. cc, λ (_, e). cc)
strict_iff s (str t) h = (
  λ e.
      let same = (eq_iff t s).0 (of_not (t == s) ((raise_if-eq-ok_iff _ _ _).0 e)) in
      (λ z. ground (arith, eq_iff t ""), ap str same),
  λ (_, e). ground (arith, eq_iff t s),
)

present_iff : (o : Option Value) → (absent o ≡ false) ↔ (truthy (or_default o null) ≡ true)
present_iff none = (λ h. cc, λ h. cc)
present_iff (some v) = ground arith

-- A check behind the test that the claim is there.
guarded_iff :
    (P : Type 0) (o : Option Value) (c : ErrorClass) (m : String) (check : Result (Unit {0}))
    → (truthy (or_default o null) ≡ true → (check ≡ ok tt) ↔ P)
    → (P → truthy (or_default o null) ≡ true)
    → ((raise_if (absent o) c m >> check) ≡ ok tt) ↔ P
guarded_iff P o c m check f g = (
  λ h.
      let (e, k) = (>>-eq-ok_iff (raise_if (absent o) c m) check).0 h in
      (f ((present_iff o).0 ((raise_if-eq-ok_iff _ _ _).0 e))).0 k,
  λ p. rw ((present_iff o).1 (g p)) ((f (g p)).1 p),
)

not_iterable_fails :
    (strict : Bool) (v : Value)
    → (if strict
        then check_strict not_iterable v
        else match_audience not_iterable (audience_claims v))
      ≢ ok tt
not_iterable_fails true v h = cc
not_iterable_fails false (list claims) h = ground arith
not_iterable_fails false (str s) h = ground arith
not_iterable_fails false _ h = cc

module _ (payload : Dict) where
  -- `_validate_aud` passes exactly when the token is meant for the audience that the caller gives.
  pub validate_aud_iff :
      (audience : Audience) (strict : Bool)
      → (validate_aud payload audience strict ≡ ok tt) ↔ IsMeantFor payload audience strict
  unfolding validate_aud
  validate_aud_iff unspecified strict =
      iff_trans (raise_if-eq-ok_iff _ _ _) (absent_iff (lookup "aud" payload))
  validate_aud_iff (one s) true =
      guarded_iff _ (lookup "aud" payload) _ _ _ (strict_iff s (get payload "aud"))
        (λ (ne, e). rw e (ground (arith, eq_iff s "", ne)))
  validate_aud_iff (one s) false =
      guarded_iff _ (lookup "aud" payload) _ _ _
        (IsFor-iff (s ∷ []) (one s) refl refl (get payload "aud"))
        (IsFor-truthy (s ∷ []) (get payload "aud"))
  validate_aud_iff (many l) true =
      guarded_iff _ (lookup "aud" payload) _ _ _ (λ _. (λ h. cc, λ h. absurd h)) (λ h. absurd h)
  validate_aud_iff (many l) false =
      guarded_iff _ (lookup "aud" payload) _ _ _
        (IsFor-iff l (many l) refl refl (get payload "aud")) (IsFor-truthy l (get payload "aud"))
  validate_aud_iff not_iterable strict =
      guarded_iff _ (lookup "aud" payload) _ _ _
        (λ _. (not_iterable_fails strict (get payload "aud"), λ h. absurd h)) (λ h. absurd h)
