-- ===== src/Value.antt =====
-- The Python values that the code handles dynamically: JSON data as `json.loads` returns it, with the
-- dict operations that the code uses. A dict keeps its insertion order.
pub mod DictLaws
use pyjwt.Prelude.{String, Bool, true, false, Option, none, some, List, [], ◌∷◌, ◌==◌, is_in, not}
use pyjwt.Prelude.{if◌then◌else◌}
use pyjwt.Prelude.Int.{ℤ, pos}

-- `datetime n` is a `datetime.datetime`, `n` microseconds after the epoch (a naive one counts as UTC).
-- A float in millionths, or one of the values that `json.loads` reads from `Infinity` and `NaN`.
pub data Float : Type 0 where
  micros : ℤ → Float
  infinity : Bool → Float
  nan : Float

mutual
  pub data Value : Type 0 where
    null : Value
    bool : Bool → Value
    int : ℤ → Value
    float : Float → Value
    str : String → Value
    list : Items → Value
    dict : Dict → Value
    datetime : ℤ → Value

  pub data Items : Type 0 where
    nil : Items
    cons : Value → Items → Items

  pub data Dict : Type 0 where
    empty : Dict
    entry : String → Value → Dict → Dict

-- d.get(k), with `none` for a missing key; Python's `d.get(k)` is `null` then.
unfoldable pub lookup : String → Dict → Option Value
lookup k empty = none
lookup k (entry j v d) = if j == k then some v else lookup k d

-- k in d
abbrev pub is_found : Option Value → Bool
is_found none = false
is_found (some v) = true

abbrev pub has : Dict → String → Bool
has d k = is_found (lookup k d)

-- d.get(k, default)
abbrev pub or_default : Option Value → Value → Value
or_default none v = v
or_default (some w) v = w

abbrev pub get : Dict → String → Value
get d k = or_default (lookup k d) null

-- d[k] = v: an old key keeps its place.
unfoldable pub set : String → Value → Dict → Dict
set k v empty = entry k v empty
set k v (entry j w d) = if j == k then entry j v d else entry j w (set k v d)

-- del d[k]. A dict holds a key once, so dropping every entry for it drops the one.
unfoldable pub remove : String → Dict → Dict
remove k empty = empty
remove k (entry j w d) = let rest = remove k d in if j == k then rest else entry j w rest

-- d.update(e)
unfoldable pub update : Dict → Dict → Dict
update d empty = d
update d (entry k v e) = update (set k v d) e

abbrev pub is_str : Value → Bool
is_str (str s) = true
is_str _ = false

abbrev is_zero : ℤ → Bool
is_zero (pos Prim.Native.Nat.ℕ.zero) = true
is_zero _ = false

-- bool(v)
abbrev pub truthy : Value → Bool
truthy null = false
truthy (bool b) = b
truthy (int n) = not (is_zero n)
truthy (float (micros n)) = not (is_zero n)
truthy (float _) = true
truthy (str s) = not (s == "")
truthy (list nil) = false
truthy (list _) = true
truthy (dict empty) = false
truthy (dict _) = true
truthy (datetime _) = true

-- v is None
abbrev pub is_none : Value → Bool
is_none null = true
is_none _ = false

-- v is False
abbrev pub is_false : Value → Bool
is_false (bool false) = true
is_false _ = false

-- v == s, for a text s
abbrev pub eq_str : Value → String → Bool
eq_str (str t) s = t == s
eq_str _ s = false

-- v in names, for a list of texts
abbrev pub value_in : Value → List String → Bool
value_in (str s) names = is_in s names
value_in _ names = false
