-- ===== src/Jws/State.antt =====
-- The object of class `PyJWS` of jwt/api_jws.py: its table of algorithms and its options.
use pyjwt.Prelude.{
  Bool, true, false, ◌&&◌, not, Option, none, some, String, List, [], ◌∷◌, is_in, if◌then◌else◌,
}
use pyjwt.Prelude.Assoc.{find, put, delete, add, discard}
use pyjwt.Errors.{Result, ok, raise, value_error, key_error, not_implemented_error}
use pyjwt.Algorithms.{Algorithm, Backend, get_default_algorithms, requires_cryptography}

-- `SigOptions`, with every entry present.
pub record SigOptions : Type 0 where
  pub verify_signature : Bool
  pub enforce_minimum_key_length : Bool

-- `SigOptions` as a caller passes it: entries may be missing.
pub record SomeSigOptions : Type 0 where
  pub verify_signature : Option Bool
  pub enforce_minimum_key_length : Option Bool

abbrev pub or_else : Option Bool → Bool → Bool
or_else none b = b
or_else (some c) b = c

-- {**options, **given}
unfoldable pub merge_sig_options : SigOptions → Option SomeSigOptions → SigOptions
merge_sig_options o none = o
merge_sig_options o (some given) = record {
  verify_signature = or_else given.verify_signature o.verify_signature;
  enforce_minimum_key_length =
      or_else given.enforce_minimum_key_length o.enforce_minimum_key_length;
}

abbrev pub default_sig_options : SigOptions
default_sig_options = record { verify_signature = true; enforce_minimum_key_length = false }

pub record PyJws (O : Type 0) : Type 0 where
  pub algorithms : List (String × Algorithm O)
  pub valid_algs : List String
  pub options : SigOptions

abbrev pub is_found_in {ℓ} : {A : Type ℓ} → Option A → Bool
is_found_in none = false
is_found_in (some a) = true

unfoldable pub missing_message : Bool → String → String
missing_message has_crypto alg_name =
    if not has_crypto && is_in alg_name requires_cryptography
    then "Algorithm could not be found. Do you have cryptography installed?"
    else "Algorithm not supported"

module _ {O : Type 0} where
  -- The loop of `__init__` that deletes what is not on the whitelist.
  unfoldable pub keep_valid :
      List String → List (String × Algorithm O) → List (String × Algorithm O)
  keep_valid valid [] = []
  keep_valid valid ((k, a) ∷ m) =
      let rest = keep_valid valid m in if is_in k valid then (k, a) ∷ rest else rest

  abbrev keys : List (String × Algorithm O) → List String
  keys [] = []
  keys ((k, a) ∷ m) = k ∷ keys m

  abbrev or_keys : Option (List String) → List (String × Algorithm O) → List String
  or_keys none m = keys m
  or_keys (some names) m = names

  -- PyJWS(algorithms, options)
  unfoldable pub init : Backend O → Option (List String) → Option SomeSigOptions → PyJws O
  init b names given =
      let table = get_default_algorithms b in
      let valid = or_keys names table in
      record {
        algorithms = keep_valid valid table;
        valid_algs = valid;
        options = merge_sig_options default_sig_options given;
      }

  -- The second argument is an `Algorithm`; the `isinstance` test for one holds by its type.
  unfoldable pub register_algorithm : PyJws O → String → Algorithm O → Result (PyJws O)
  register_algorithm jws alg_id alg_obj =
      if is_found_in (find alg_id jws.algorithms)
      then raise value_error "Algorithm already has a handler."
      else ok (record jws {
        algorithms = put alg_id alg_obj jws.algorithms;
        valid_algs = add alg_id jws.valid_algs;
      })

  -- set.remove raises KeyError for a name that is not in the set.
  unfoldable pub unregister_algorithm : PyJws O → String → Result (PyJws O)
  unregister_algorithm jws alg_id =
      if is_found_in (find alg_id jws.algorithms)
      then (if is_in alg_id jws.valid_algs
          then ok (record jws {
            algorithms = delete alg_id jws.algorithms;
            valid_algs = discard alg_id jws.valid_algs;
          })
          else raise key_error alg_id)
      else raise key_error
          "The specified algorithm could not be removed because it is not registered."

  abbrev pub get_algorithms : PyJws O → List String
  get_algorithms jws = jws.valid_algs

  abbrev found_or : Option (Algorithm O) → String → Result (Algorithm O)
  found_or none m = raise not_implemented_error m
  found_or (some a) m = ok a

  -- The first argument is the module's `has_crypto`.
  unfoldable pub get_algorithm_by_name : Bool → PyJws O → String → Result (Algorithm O)
  get_algorithm_by_name has_crypto jws alg_name =
      found_or (find alg_name jws.algorithms) (missing_message has_crypto alg_name)
