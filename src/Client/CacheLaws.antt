-- ===== src/Client/CacheLaws.antt =====
-- The cache of jwt/jwk_set_cache.py over any sequence of `put` calls.
use mathlib.Core.Path.{subst}
use pyjwt.Prelude.{
  ◌↔◌, ◌∙◌, ap, sym, Bool, true, false, ◌&&◌, ◌≡◌, refl, arith, ◌⊎◌, Option, none, some, List, [],
  ◌∷◌, if◌then◌else◌, some-eq,
}
use pyjwt.Prelude.Int.{ℤ, ◌+ℤ◌, ◌≤ℤ◌, ltb_ℤ}
use pyjwt.Client.Cache
use pyjwt.Client.Cache.{JwkSetCache, SetWithTimestamp, minus_one, put, is_expired, get}

-- Within the lifespan, or with a lifespan that never ends.
abbrev pub IsFresh : ℤ → ℤ → ℤ → Type 0
IsFresh lifespan stored now = (lifespan ≤ℤ minus_one) ⊎ (now ≤ℤ stored +ℤ lifespan)

abbrev is_old : ℤ → ℤ → ℤ → Bool
is_old lifespan stored now = ltb_ℤ minus_one lifespan && ltb_ℤ (stored +ℤ lifespan) now

is_old_iff :
    (lifespan stored now : ℤ) → (is_old lifespan stored now ≡ false) ↔ IsFresh lifespan stored now
is_old_iff lifespan stored now = ground arith

module _ {A : Type 0} where
  -- A sequence of `put` calls, with their times.
  abbrev pub put_all : List (Option A × ℤ) → JwkSetCache A → JwkSetCache A
  put_all [] c = c
  put_all ((s, t) ∷ ps) c = put_all ps (put s t c)

  abbrev later_put : Option A × ℤ → Option (Option A × ℤ) → Option A × ℤ
  later_put p none = p
  later_put p (some q) = q

  -- The last of the calls.
  abbrev pub last_put : List (Option A × ℤ) → Option (Option A × ℤ)
  last_put [] = none
  last_put (p ∷ ps) = some (later_put p (last_put ps))

  -- What the cache holds after the calls.
  abbrev put_last : Option (Option A × ℤ) → JwkSetCache A → JwkSetCache A
  put_last none c = c
  put_last (some (s, t)) c = put s t c

  put_last-put :
      (o : Option (Option A × ℤ)) (s : Option A) (t : ℤ) (c : JwkSetCache A)
      → put_last o (put s t c) ≡ put_last (some (later_put (s, t) o)) c
  unfolding put
  put_last-put none s t c = refl
  put_last-put (some (s', t')) s t c = refl

  put_all-last :
      (ps : List (Option A × ℤ)) (c : JwkSetCache A) → put_all ps c ≡ put_last (last_put ps) c
  put_all-last [] c = refl
  put_all-last ((s, t) ∷ ps) c = put_all-last ps (put s t c) ∙ put_last-put (last_put ps) s t c

  get-fresh_iff :
      (old : Bool) (a s : A) → ((if old then none else some a) ≡ some s) ↔ ((a ≡ s) × (old ≡ false))
  get-fresh_iff true a s = (λ h. cc, λ h. let q = h.1 in cc)
  get-fresh_iff false a s = (λ h. (some-eq h, refl), λ (e, _). ap some e)

  -- After the calls `ps`, what was put last: `get` finds exactly that.
  get-put_last :
      (o : Option (Option A × ℤ)) (lifespan now : ℤ) (s : A)
      → (get (put_last o (Cache.init lifespan)) now ≡ some s)
        ↔ ((t : ℤ) × (o ≡ some (some s, t)) × IsFresh lifespan t now)
  unfolding get is_expired put Cache.init
  get-put_last none lifespan now s = (λ h. cc, λ (t, e, f). cc)
  get-put_last (some (none, t)) lifespan now s = (λ h. cc, λ (t, e, f). cc)
  get-put_last (some (some a, t)) lifespan now s = (
    λ h.
        let (e, f) = (get-fresh_iff (is_old lifespan t now) a s).0 h in
        (t, ap (λ (x : A). some (some x, t)) e, (is_old_iff lifespan t now).0 f),
    λ (t', e, f).
        let same = some-eq e in
        (get-fresh_iff (is_old lifespan t now) a s).1 (
          some-eq (ap (λ (p : Option A × ℤ). p.0) same),
          (is_old_iff lifespan t now).1 (
              subst (λ (x : ℤ). IsFresh lifespan x now) (sym (ap (λ (p : Option A × ℤ). p.1) same))
                f),
        ),
  )

  -- After any sequence of `put` calls on a new cache, `get` returns a key set exactly when the last
  -- call put that set (not None) and the lifespan from that call on has not passed or never ends.
  pub get-put_all :
      (ps : List (Option A × ℤ)) (lifespan now : ℤ) (s : A)
      → (get (put_all ps (Cache.init lifespan)) now ≡ some s)
        ↔ ((t : ℤ) × (last_put ps ≡ some (some s, t)) × IsFresh lifespan t now)
  get-put_all ps lifespan now s =
      rw (put_all-last ps (Cache.init lifespan)) (get-put_last (last_put ps) lifespan now s)
