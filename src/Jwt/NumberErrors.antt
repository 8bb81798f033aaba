-- ===== src/Jwt/NumberErrors.antt =====
-- `int(value)` in jwt/api_jwt.py: on which values it raises a ValueError and nothing else.
use pyjwt.Prelude.{
  ℕ, ◌-◌, ◌+◌, ◌*◌, Bool, true, false, ◌≡◌, refl, List, [], ◌∷◌, nat_eq, if◌then◌else◌,
}
use pyjwt.Errors.{Result, value_error}
use pyjwt.Value.{Value, null, bool, int, float, micros, infinity, nan, str, list, dict, datetime}
use pyjwt.Utils.KeyFormats.{codes}
use pyjwt.Jwt.Numbers.{
  Character, digit, underscore, invalid, classify, not_int, parse_digits, signed_digits, strip,
  int_of_str, int_of_float, to_int,
}
use pyjwt.Errors.Raising.{RaisesOnly, RaisesOnly->>=, RaisesOnly-if}

-- What `parse_digits` does with a character.
abbrev step : Character → ℕ → Bool → (ℕ → Result ℕ) → Result ℕ → Result ℕ
step k count before more skip = elim k [
  | digit d ↦ if nat_eq count 0 then not_int else more d
  | underscore ↦ if before then skip else not_int
  | invalid ↦ not_int
]

RaisesOnly-step :
    (k : Character) (count : ℕ) (before : Bool) (more : ℕ → Result ℕ) (skip : Result ℕ)
    → ((d : ℕ) → RaisesOnly value_error (more d))
    → RaisesOnly value_error skip
    → RaisesOnly value_error (step k count before more skip)
RaisesOnly-step (digit d) count before more skip p q =
    RaisesOnly-if (nat_eq count 0) value_error _ _ refl (p d)
RaisesOnly-step underscore count before more skip p q = RaisesOnly-if before value_error _ _ q refl
RaisesOnly-step invalid count before more skip p q = refl

RaisesOnly-parse_digits :
    (count : ℕ) (before : Bool) (acc : ℕ) (s : List ℕ)
    → RaisesOnly value_error (parse_digits count before acc s)
unfolding parse_digits
RaisesOnly-parse_digits count true acc [] = tt
RaisesOnly-parse_digits count false acc [] = refl
RaisesOnly-parse_digits count before acc (c ∷ s) =
    RaisesOnly-step (classify c) count before _ _
      (λ d. RaisesOnly-parse_digits (count - 1) true (acc * 10 + d) s)
      (RaisesOnly-parse_digits count false acc s)

RaisesOnly-signed_digits : (s : List ℕ) → RaisesOnly value_error (signed_digits s)
RaisesOnly-signed_digits [] = refl
RaisesOnly-signed_digits (c ∷ s) =
    RaisesOnly-if (nat_eq c b'-') value_error _ _
      (RaisesOnly->>= value_error _ _ (RaisesOnly-parse_digits 4300 false 0 s) (λ n. tt))
      (RaisesOnly-if (nat_eq c b'+') value_error _ _
        (RaisesOnly->>= value_error _ _ (RaisesOnly-parse_digits 4300 false 0 s) (λ n. tt))
        (RaisesOnly->>= value_error _ _ (RaisesOnly-parse_digits 4300 false 0 (c ∷ s)) (λ n. tt)))

-- A JSON number but infinity, a Boolean, or a text: what `int` reads, or refuses with a ValueError.
abbrev pub is_numeric : Value → Bool
is_numeric (bool b) = true
is_numeric (int n) = true
is_numeric (float (infinity s)) = false
is_numeric (float _) = true
is_numeric (str s) = true
is_numeric _ = false

pub RaisesOnly-to_int : (v : Value) → is_numeric v ≡ true → RaisesOnly value_error (to_int v)
unfolding to_int int_of_str int_of_float
RaisesOnly-to_int (bool true) h = tt
RaisesOnly-to_int (bool false) h = tt
RaisesOnly-to_int (int n) h = tt
RaisesOnly-to_int (float (micros n)) h = tt
RaisesOnly-to_int (float nan) h = refl
RaisesOnly-to_int (float (infinity s)) h = cc
RaisesOnly-to_int (str s) h = RaisesOnly-signed_digits (strip (codes s))
RaisesOnly-to_int null h = cc
RaisesOnly-to_int (list vs) h = cc
RaisesOnly-to_int (dict d) h = cc
RaisesOnly-to_int (datetime t) h = cc
