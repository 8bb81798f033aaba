-- ===== src/Jws/StateLaws.antt =====
-- The table of algorithms of jwt/api_jws.py: registering, removing and looking up.
use pyjwt.Prelude.{
  Bool, true, false, ◌≡◌, Option, String, List, [], ◌∷◌, ◌==◌, is_in, arith, eq_iff, eq_refl,
  if◌then◌else◌,
}
use pyjwt.Prelude.Assoc.{find, delete, discard, find-put, find-delete, is_in-add, is_in-discard}
use pyjwt.Errors.{ok, raise, not_implemented_error}
use pyjwt.Algorithms.{Algorithm, Backend, get_default_algorithms}
use pyjwt.Jws.State.{
  PyJws, SomeSigOptions, is_found_in, keep_valid, missing_message, init, register_algorithm,
  unregister_algorithm, get_algorithm_by_name,
}

module _ {O : Type 0} where
  -- Every name with a handler is one of the names that `get_algorithms` returns.
  pub record IsConsistent (jws : PyJws O) : Type 0 where
    pub listed :
        (name : String)
        → is_found_in (find name jws.algorithms) ≡ true
        → is_in name jws.valid_algs ≡ true

  keep_valid-listed :
      (valid : List String) (m : List (String × Algorithm O)) (name : String)
      → is_found_in (find name (keep_valid valid m)) ≡ true
      → is_in name valid ≡ true
  unfolding keep_valid find
  keep_valid-listed valid [] name h = cc
  keep_valid-listed valid ((k, a) ∷ m) name h =
      ground (arith, keep_valid-listed valid m name, eq_iff k name)

  init-IsConsistent :
      (b : Backend O) (names : Option (List String)) (given : Option SomeSigOptions)
      → IsConsistent (init b names given)
  unfolding init
  init-IsConsistent b names given = record {
    listed = λ name h. keep_valid-listed _ (get_default_algorithms b) name h;
  }

  register_algorithm-IsConsistent :
      (jws jws' : PyJws O) (alg_id : String) (alg : Algorithm O)
      → register_algorithm jws alg_id alg ≡ ok jws'
      → IsConsistent jws
      → IsConsistent jws'
  unfolding register_algorithm
  register_algorithm-IsConsistent jws jws' alg_id alg e c = record {
    listed = λ name. ground (
      arith,
      c.listed name,
      find-put alg_id name alg jws.algorithms,
      is_in-add name alg_id jws.valid_algs,
    );
  }

  unregister_algorithm-IsConsistent :
      (jws jws' : PyJws O) (alg_id : String)
      → unregister_algorithm jws alg_id ≡ ok jws'
      → IsConsistent jws
      → IsConsistent jws'
  unfolding unregister_algorithm
  unregister_algorithm-IsConsistent jws jws' alg_id e c = record {
    listed = λ name. ground (
      arith,
      c.listed name,
      find-delete alg_id name jws.algorithms,
      is_in-discard name alg_id jws.valid_algs,
    );
  }

  -- The objects that a program can make: one is built, then algorithms are added and removed.
  pub data Reachable (b : Backend O) : PyJws O → Type 0 where
    built :
        (names : Option (List String)) (given : Option SomeSigOptions)
        → Reachable b (init b names given)
    registered :
        {jws jws' : PyJws O} (alg_id : String) (alg : Algorithm O)
        → Reachable b jws
        → register_algorithm jws alg_id alg ≡ ok jws'
        → Reachable b jws'
    unregistered :
        {jws jws' : PyJws O} (alg_id : String)
        → Reachable b jws
        → unregister_algorithm jws alg_id ≡ ok jws'
        → Reachable b jws'

  -- Whatever was registered and removed before, every name with a handler is one that
  -- `get_algorithms` returns.
  pub Reachable-IsConsistent : (b : Backend O) (jws : PyJws O) → Reachable b jws → IsConsistent jws
  Reachable-IsConsistent b _ (built names given) = init-IsConsistent b names given
  Reachable-IsConsistent b _ (registered {jws} {jws'} alg_id alg r e) =
      register_algorithm-IsConsistent jws jws' alg_id alg e (Reachable-IsConsistent b jws r)
  Reachable-IsConsistent b _ (unregistered {jws} {jws'} alg_id r e) =
      unregister_algorithm-IsConsistent jws jws' alg_id e (Reachable-IsConsistent b jws r)

  -- After a successful registration the name gives the new algorithm, every other name what it gave
  -- before.
  pub get_algorithm_by_name-register_algorithm :
      (has_crypto : Bool) (jws jws' : PyJws O) (alg_id : String) (alg : Algorithm O) (name : String)
      → register_algorithm jws alg_id alg ≡ ok jws'
      → get_algorithm_by_name has_crypto jws' name
        ≡ (if alg_id == name then ok alg else get_algorithm_by_name has_crypto jws name)
  unfolding register_algorithm get_algorithm_by_name
  get_algorithm_by_name-register_algorithm has_crypto jws jws' alg_id alg name e =
      ground (arith, find-put alg_id name alg jws.algorithms)

  -- A registered name can be removed from every reachable object; then it gives NotImplementedError,
  -- every other name what it gave before.
  pub unregister_algorithm-registered :
      (b : Backend O) (has_crypto : Bool) (jws : PyJws O) (alg_id : String)
      → Reachable b jws
      → is_found_in (find alg_id jws.algorithms) ≡ true
      → (jws' : PyJws O) × (unregister_algorithm jws alg_id ≡ ok jws')
        × ((name : String)
            → (alg_id == name) ≡ false
            → get_algorithm_by_name has_crypto jws' name
              ≡ get_algorithm_by_name has_crypto jws name)
        × (get_algorithm_by_name has_crypto jws' alg_id
            ≡ raise not_implemented_error (missing_message has_crypto alg_id))
  unfolding unregister_algorithm get_algorithm_by_name
  unregister_algorithm-registered b has_crypto jws alg_id r h = (
    record jws {
      algorithms = delete alg_id jws.algorithms;
      valid_algs = discard alg_id jws.valid_algs;
    },
    rw (h, (Reachable-IsConsistent b jws r).listed alg_id h),
    λ name ne. rw (find-delete, ne),
    rw (find-delete, eq_refl),
  )
