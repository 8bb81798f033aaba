-- ===== src/Value/DictLaws.antt =====
-- Laws of dicts: what a lookup finds after a change.
use pyjwt.Prelude.{
  String, ◌≡◌, refl, Option, none, some, ◌==◌, arith, eq_iff, Bool-cases, inl, inr, if◌then◌else◌,
}
use mathlib.Core.Path.{subst}
use pyjwt.Value.{Value, Dict, empty, entry, lookup, set, remove, update}

pub lookup-set :
    (k j : String) (v : Value) (d : Dict)
    → lookup j (set k v d) ≡ (if k == j then some v else lookup j d)
unfolding lookup set
lookup-set k j v empty = refl
lookup-set k j v (entry i w d) =
    ground (arith, eq_iff k j, eq_iff i k, eq_iff i j, lookup-set k j v d)

pub lookup-remove :
    (k j : String) (d : Dict) → lookup j (remove k d) ≡ (if k == j then none else lookup j d)
unfolding lookup remove
lookup-remove k j empty = ground arith
lookup-remove k j (entry i w d) =
    ground (arith, eq_iff k j, eq_iff i k, eq_iff i j, lookup-remove k j d)

-- Every key stands once, as in any Python dict.
abbrev pub IsUnique : Dict → Type 0
IsUnique empty = Unit
IsUnique (entry k v d) = (lookup k d ≡ none) × IsUnique d

abbrev pub or_found : Option Value → Option Value → Option Value
or_found none o = o
or_found (some v) o = some v

pub lookup-update :
    (j : String) (d e : Dict)
    → IsUnique e
    → lookup j (update d e) ≡ or_found (lookup j e) (lookup j d)
unfolding update
lookup-update j d empty h = unfold lookup in refl
lookup-update j d (entry k v e) (fresh, h) = elim (Bool-cases (k == j)) [
  | inl q ↦
      let fresh' = subst (λ (x : String). lookup x e ≡ none) ((eq_iff k j).0 q) fresh in
      rw (lookup-update j (set k v d) e h, fresh', lookup-set, q) (unfold lookup in rw q)
  | inr q ↦ rw (lookup-update j (set k v d) e h, lookup-set, q) (unfold lookup in rw q)
]

-- Two dicts with the same entries, in any order.
abbrev pub SameEntries : Dict → Dict → Type 0
SameEntries d e = (k : String) → lookup k d ≡ lookup k e
