-- ===== src/Prelude/Assoc.antt =====
-- A Python dict with text keys as an association list in insertion order, and a set of texts as a list.
use Prim.Native.String.{String}
use mathlib.Core.Path.{◌≡◌, refl}
use mathlib.Core.Bool.{true, false}
use mathlib.Core.Option.{Option, none, some}
use mathlib.Core.List.{List, [], ◌∷◌, ◌++◌}
use native.Mathlib.Omega.{arith}
use text.Mathlib.Text.{◌==◌}
use text.Mathlib.TextEquality.{eq_iff}
use pyjwt.Prelude.Tests.{if◌then◌else◌, is_in}

module _ {ℓ} {V : Type ℓ} where
  unfoldable pub find : String → List (String × V) → Option V
  find k [] = none
  find k ((j, v) ∷ m) = if j == k then some v else find k m

  -- m[k] = v
  unfoldable pub put : String → V → List (String × V) → List (String × V)
  put k v [] = (k, v) ∷ []
  put k v ((j, w) ∷ m) = if j == k then (j, v) ∷ m else (j, w) ∷ put k v m

  -- del m[k]
  unfoldable pub delete : String → List (String × V) → List (String × V)
  delete k [] = []
  delete k ((j, w) ∷ m) = let rest = delete k m in if j == k then rest else (j, w) ∷ rest

  pub find-put :
      (k j : String) (v : V) (m : List (String × V))
      → find j (put k v m) ≡ (if k == j then some v else find j m)
  unfolding find put
  find-put k j v [] = refl
  find-put k j v ((i, w) ∷ m) = ground (arith, eq_iff k j, eq_iff i k, eq_iff i j, find-put k j v m)

  pub find-delete :
      (k j : String) (m : List (String × V))
      → find j (delete k m) ≡ (if k == j then none else find j m)
  unfolding find delete
  find-delete k j [] = ground arith
  find-delete k j ((i, w) ∷ m) =
      ground (arith, eq_iff k j, eq_iff i k, eq_iff i j, find-delete k j m)

-- s.add(x), s.remove(x) for a member x
unfoldable pub add : String → List String → List String
add x xs = if is_in x xs then xs else xs ++ x ∷ []

unfoldable pub discard : String → List String → List String
discard x [] = []
discard x (y ∷ ys) = let rest = discard x ys in if y == x then rest else y ∷ rest

pub is_in-append :
    (x y : String) (xs : List String)
    → is_in x (xs ++ y ∷ []) ≡ (if y == x then true else is_in x xs)
is_in-append x y [] = refl
is_in-append x y (z ∷ zs) = ground (arith, is_in-append x y zs)

pub is_in-add :
    (x y : String) (xs : List String) → is_in x (add y xs) ≡ (if y == x then true else is_in x xs)
unfolding add
is_in-add x y xs = ground (arith, is_in-append x y xs, eq_iff y x)

pub is_in-discard :
    (x y : String) (xs : List String)
    → is_in x (discard y xs) ≡ (if y == x then false else is_in x xs)
unfolding discard
is_in-discard x y [] = ground arith
is_in-discard x y (z ∷ zs) =
    ground (arith, is_in-discard x y zs, eq_iff y x, eq_iff z y, eq_iff z x)
