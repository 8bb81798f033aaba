-- ===== src/Jwk/InitLaws.antt =====
-- What a `PyJWK` of jwt/api_jwk.py is made of.
use mathlib.Core.Path.{subst}
use pyjwt.Prelude.{
  Bool, true, false, ◌≡◌, ◌↔◌, refl, ap, ◌∙◌, Option, none, some, String, is_in, not, ◌&&◌, arith,
}
use pyjwt.Prelude.Assoc.{find}
use pyjwt.Errors.{ok}
use pyjwt.Errors.Bind.{>>=-eq-ok, raise_if-eq-ok, ok-injective}
use pyjwt.Value.{Value, Dict, null, bool, int, float, str, list, dict, datetime, get, truthy}
use pyjwt.Algorithms.{Algorithm, Backend, get_default_algorithms, requires_cryptography}
use pyjwt.Jwk.AlgorithmChoice.{IsChosen, choose_algorithm_iff}
use pyjwt.Jwk.{PyJwk, choose_algorithm, lookup_algorithm, init, found_algorithm}

of_not : (x : Bool) → not x ≡ false → x ≡ true
of_not x h = ground arith

module _ {O : Type 0} (b : Backend O) where
  -- The parts of a key that was made from a dict.
  pub record IsMadeFrom (jwk_data : Dict) (algorithm : Option String) (k : PyJwk O) : Type 0 where
    pub same_data : k.jwk_data ≡ jwk_data
    pub has_type : truthy (get jwk_data "kty") ≡ true
    pub chosen : IsChosen algorithm jwk_data k.algorithm_name
    pub available : (not b.has_crypto && is_in k.algorithm_name requires_cryptography) ≡ false
    pub handler : find k.algorithm_name (get_default_algorithms b) ≡ some k.algorithm
    pub read : k.algorithm.from_jwk jwk_data ≡ ok k.key

  record IsLookedUp (v : Value) (name : String) (alg : Algorithm O) : Type 0 where
    is_name : v ≡ str name
    available : (not b.has_crypto && is_in name requires_cryptography) ≡ false
    handler : find name (get_default_algorithms b) ≡ some alg

  found_algorithm-eq-ok :
      (o : Option (Algorithm O)) (a : Algorithm O) → found_algorithm o ≡ ok a → o ≡ some a
  found_algorithm-eq-ok none a h = cc
  found_algorithm-eq-ok (some a') a h = ap some (ok-injective h)

  lookup_algorithm-eq-ok :
      (v : Value) (name : String) (alg : Algorithm O)
      → lookup_algorithm b v ≡ ok (name, alg)
      → IsLookedUp v name alg
  unfolding lookup_algorithm
  lookup_algorithm-eq-ok (str s) name alg h =
      let (e1, h1) = raise_if-eq-ok (not b.has_crypto && is_in s requires_cryptography) _ _ _ h in
      let (a, e2, h2) = >>=-eq-ok (found_algorithm (find s (get_default_algorithms b))) _ h1 in
      let same = ok-injective h2 in
      let same_name = ap (λ (p : String × Algorithm O). p.0) same in
      let same_alg = ap (λ (p : String × Algorithm O). p.1) same in
      let found = found_algorithm-eq-ok (find s (get_default_algorithms b)) a e2 in
      record {
        is_name = ap str same_name;
        available =
            subst (λ n. (not b.has_crypto && is_in n requires_cryptography) ≡ false) same_name e1;
        handler =
            subst (λ n. find n (get_default_algorithms b) ≡ some alg) same_name
              (found ∙ ap some same_alg);
      }
  lookup_algorithm-eq-ok (list vs) name alg h = cc
  lookup_algorithm-eq-ok (dict d) name alg h = cc
  lookup_algorithm-eq-ok null name alg h = cc
  lookup_algorithm-eq-ok (bool x) name alg h = cc
  lookup_algorithm-eq-ok (int n) name alg h = cc
  lookup_algorithm-eq-ok (float x) name alg h = cc
  lookup_algorithm-eq-ok (datetime t) name alg h = cc

  init-eq-ok :
      (jwk_data : Dict) (algorithm : Option String) (k : PyJwk O)
      → init b jwk_data algorithm ≡ ok k
      → IsMadeFrom jwk_data algorithm k
  unfolding init
  init-eq-ok jwk_data algorithm k h =
      let (e1, h1) = raise_if-eq-ok (not (truthy (get jwk_data "kty"))) _ _ _ h in
      let (v, e2, h2) = >>=-eq-ok (choose_algorithm algorithm jwk_data) _ h1 in
      let ((name, alg), e3, h3) = >>=-eq-ok (lookup_algorithm b v) _ h2 in
      let (key, e4, h4) = >>=-eq-ok (alg.from_jwk jwk_data) _ h3 in
      let l = lookup_algorithm-eq-ok v name alg e3 in
      subst (IsMadeFrom jwk_data algorithm) (ok-injective h4) (record {
        same_data = refl;
        has_type = of_not (truthy (get jwk_data "kty")) e1;
        chosen = (choose_algorithm_iff algorithm jwk_data name).0 (e2 ∙ ap ok l.is_name);
        available = l.available;
        handler = l.handler;
        read = e4;
      })

  lookup_algorithm-available :
      (name : String) (alg : Algorithm O)
      → (not b.has_crypto && is_in name requires_cryptography) ≡ false
      → find name (get_default_algorithms b) ≡ some alg
      → lookup_algorithm b (str name) ≡ ok (name, alg)
  unfolding lookup_algorithm
  lookup_algorithm-available name alg e1 e2 = rw (e1, e2)

  -- `PyJWK(jwk_data, algorithm)` is made, and is `k`, exactly if "kty" is truthy, the algorithm of `k`
  -- is the one that the specification chooses from the argument, "alg", or "kty" and "crv", this
  -- algorithm is available and its handler in the default table is that of `k`, and the key is what
  -- the handler reads from the dict, which `k` keeps.
  pub init_iff :
      (jwk_data : Dict) (algorithm : Option String) (k : PyJwk O)
      → (init b jwk_data algorithm ≡ ok k) ↔ IsMadeFrom jwk_data algorithm k
  unfolding init
  init_iff jwk_data algorithm k = (
    init-eq-ok jwk_data algorithm k,
    λ m.
        let chosen = (choose_algorithm_iff algorithm jwk_data k.algorithm_name).1 m.chosen in
        let found = lookup_algorithm-available k.algorithm_name k.algorithm m.available m.handler in
        rw (m.has_type, chosen, found, m.read, ← m.same_data),
  )
