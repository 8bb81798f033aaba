-- ===== src/Jwk/KeySetLaws.antt =====
-- Which keys a `PyJWKSet` of jwt/api_jwk.py keeps, and what `jwk_set[kid]` returns.
use mathlib.Core.Path.{subst}
use pyjwt.Prelude.{
  Bool, true, false, ◌&&◌, not, ◌≡◌, ◌↔◌, refl, ap, Option, none, some, String, List, [], ◌∷◌,
  Bool-cases, inl, inr, arith, some-eq,
}
use pyjwt.Errors.{Error, Result, ok, err, isinstance, py_jwt_error, missing_cryptography_error}
use pyjwt.Errors.Bind.{>>=-eq-ok, ok-injective}
use pyjwt.Value.{Value, Items, nil, cons, eq_str}
use pyjwt.Algorithms.{Backend}
use pyjwt.Jwk.{PyJwk, key_id}
use pyjwt.Jwk.KeySet.{
  PyJwkSet, make_key, collect, usable_keys, find_key, found_or_key_error, get_item,
}

-- The exceptions for which a key is passed over.
abbrev pub is_skipped : Error → Bool
is_skipped e = isinstance e py_jwt_error && not (isinstance e missing_cryptography_error)

module _ {O : Type 0} (b : Backend O) where
  -- The keys of a list of values, in its order, without the unusable ones.
  pub data Usable : Items → List (PyJwk O) → Type 0 where
    done : Usable nil []
    keep :
        (v : Value) (vs : Items) (k : PyJwk O) (ks : List (PyJwk O))
        → make_key b v ≡ ok k
        → Usable vs ks
        → Usable (cons v vs) (k ∷ ks)
    skip :
        (v : Value) (vs : Items) (e : Error) (ks : List (PyJwk O))
        → make_key b v ≡ err e
        → is_skipped e ≡ true
        → Usable vs ks
        → Usable (cons v vs) ks

  collect-err :
      (e : Error) (rest : Result (List (PyJwk O))) (ks : List (PyJwk O))
      → collect b (err e) rest ≡ ok ks
      → (is_skipped e ≡ true) × (rest ≡ ok ks)
  collect-err e rest ks h = elim (Bool-cases (isinstance e py_jwt_error)) [
    | inl t ↦ elim (Bool-cases (isinstance e missing_cryptography_error)) [
      | inl u ↦ let h' = rw (t, u) at h in cc
      | inr u ↦ (rw (t, u), rw (t, u) at h)
    ]
    | inr t ↦ let h' = rw t at h in cc
  ]

  collect-skip :
      (e : Error) (rest : Result (List (PyJwk O)))
      → is_skipped e ≡ true
      → collect b (err e) rest ≡ rest
  collect-skip e rest h = ground arith

  step :
      (v : Value) (vs : Items) (r : Result (PyJwk O)) (ks : List (PyJwk O))
      → make_key b v ≡ r
      → ((ks' : List (PyJwk O)) → usable_keys b vs ≡ ok ks' → Usable vs ks')
      → collect b r (usable_keys b vs) ≡ ok ks
      → Usable (cons v vs) ks
  step v vs (ok k) ks e more h =
      let (ks', e1, h1) = >>=-eq-ok (usable_keys b vs) _ h in
      subst (Usable (cons v vs)) (ok-injective h1) (keep v vs k ks' e (more ks' e1))
  step v vs (err x) ks e more h =
      let (s, h1) = collect-err x (usable_keys b vs) ks h in skip v vs x ks e s (more ks h1)

  usable_keys-Usable : (vs : Items) (ks : List (PyJwk O)) → usable_keys b vs ≡ ok ks → Usable vs ks
  unfolding usable_keys
  usable_keys-Usable nil ks h = subst (Usable nil) (ok-injective h) done
  usable_keys-Usable (cons v vs) ks h =
      step v vs (make_key b v) ks refl (λ ks' h'. usable_keys-Usable vs ks' h') h

  Usable-usable_keys : (vs : Items) (ks : List (PyJwk O)) → Usable vs ks → usable_keys b vs ≡ ok ks
  unfolding usable_keys
  Usable-usable_keys _ _ done = refl
  Usable-usable_keys _ _ (keep v vs k ks e u) = rw (e, Usable-usable_keys vs ks u)
  Usable-usable_keys _ _ (skip v vs x ks e s u) =
      rw (e, collect-skip x _ s) (Usable-usable_keys vs ks u)

  -- The loop of `PyJWKSet` returns keys exactly when each value of the list makes a key or raises a
  -- PyJWTError other than MissingCryptographyError; and they are the keys made, in the list's order.
  pub usable_keys_iff :
      (vs : Items) (ks : List (PyJwk O)) → (usable_keys b vs ≡ ok ks) ↔ Usable vs ks
  usable_keys_iff vs ks = (usable_keys-Usable vs ks, Usable-usable_keys vs ks)

module _ {O : Type 0} where
  -- The first key with the id: the keys before it do not have it.
  pub data FirstWith (kid : String) (k : PyJwk O) : List (PyJwk O) → Type 0 where
    first : (ks : List (PyJwk O)) → eq_str (key_id k) kid ≡ true → FirstWith kid k (k ∷ ks)
    later :
        (j : PyJwk O) (ks : List (PyJwk O))
        → eq_str (key_id j) kid ≡ false
        → FirstWith kid k ks
        → FirstWith kid k (j ∷ ks)

  find_key-FirstWith :
      (ks : List (PyJwk O)) (kid : String) (k : PyJwk O)
      → find_key ks kid ≡ some k
      → FirstWith kid k ks
  unfolding find_key
  find_key-FirstWith [] kid k h = cc
  find_key-FirstWith (j ∷ ks) kid k h = elim (Bool-cases (eq_str (key_id j) kid)) [
    | inl t ↦ subst (λ x. FirstWith kid x (j ∷ ks)) (some-eq (rw t at h)) (first ks t)
    | inr t ↦ later j ks t (find_key-FirstWith ks kid k (rw t at h))
  ]

  FirstWith-find_key :
      (kid : String) (k : PyJwk O) (ks : List (PyJwk O))
      → FirstWith kid k ks
      → find_key ks kid ≡ some k
  unfolding find_key
  FirstWith-find_key kid k _ (first ks e) = rw e
  FirstWith-find_key kid k _ (later j ks e f) = rw e (FirstWith-find_key kid k ks f)

  found-eq-ok : (o : Option (PyJwk O)) (k : PyJwk O) → found_or_key_error o ≡ ok k → o ≡ some k
  found-eq-ok none k h = cc
  found-eq-ok (some j) k h = ap some (ok-injective h)

  -- `jwk_set[kid]` returns the first key with that id.
  pub get_item_iff :
      (s : PyJwkSet O) (kid : String) (k : PyJwk O)
      → (get_item s kid ≡ ok k) ↔ FirstWith kid k s.keys
  unfolding get_item
  get_item_iff s kid k = (
    λ h. find_key-FirstWith s.keys kid k (found-eq-ok (find_key s.keys kid) k h),
    λ f. rw (FirstWith-find_key kid k s.keys f),
  )
