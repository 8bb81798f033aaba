-- ===== src/Client/KeyCacheLaws.antt =====
-- What the cached keys of jwt/jwks_client.py are, after any calls.
use pyjwt.Prelude.{
  ℕ, zero, suc, ◌≤◌, ◌≡◌, refl, ap, true, Option, none, some, String, List, [], ◌∷◌, eq_iff,
  some-eq, length, take, All, All-take, Bool-cases, inl, inr, arith,
}
use mathlib.Core.Path.{subst}
use pyjwt.Prelude.Int.{ℤ}
use pyjwt.Errors.{Result, ok, err}
use pyjwt.Errors.Bind.{ok-injective}
use pyjwt.Algorithms.{Backend}
use pyjwt.Jwk.{PyJwk, key_id}
use pyjwt.Client.Fetch.{PyJwkClient, Request, is_signing_key, same_id, get_signing_key}
use pyjwt.Client.FetchLaws.{get_signing_key-IsFound}
use pyjwt.Client.KeyCache.{
  KeyCachingClient, same_kid, find_kid, delete_kid, init, remember, hit_or_call,
  get_cached_signing_key,
}

length-take-le {ℓ} : {A : Type ℓ} (n : ℕ) (xs : List A) → length (take n xs) ≤ n
length-take-le zero xs = omega arith
length-take-le (suc n) [] = omega arith
length-take-le (suc n) (x ∷ xs) = omega (arith, length-take-le n xs)

same_kid-eq-true : (j k : Option String) → same_kid j k ≡ true → j ≡ k
same_kid-eq-true none none h = refl
same_kid-eq-true (some j) (some k) h = ap some ((eq_iff j k).0 h)
same_kid-eq-true none (some k) h = cc
same_kid-eq-true (some j) none h = cc

module _ {ℓ κ} {V : Type ℓ} (P : Option String × V → Type κ) where
  All-delete_kid :
      (k : Option String) (m : List (Option String × V)) → All P m → All P (delete_kid k m)
  unfolding delete_kid
  All-delete_kid k [] h = tt
  All-delete_kid k ((j, v) ∷ m) (p, h) = elim (Bool-cases (same_kid j k)) [
    | inl e ↦ rw e (All-delete_kid k m h)
    | inr e ↦ rw e (p, All-delete_kid k m h)
  ]

  find_kid-All :
      (k : Option String) (v : V) (m : List (Option String × V))
      → find_kid k m ≡ some v
      → All P m
      → P (k, v)
  unfolding find_kid
  find_kid-All k v [] e h = cc
  find_kid-All k v ((j, w) ∷ m) e (p, h) = elim (Bool-cases (same_kid j k)) [
    | inl t ↦
        subst (λ (x : V). P (k, x)) (some-eq (rw t at e))
          (subst (λ (x : Option String). P (x, w)) (same_kid-eq-true j k t) p)
    | inr t ↦ find_kid-All k v m (rw t at e) h
  ]

length-delete_kid-le {ℓ} :
    {V : Type ℓ} (k : Option String) (m : List (Option String × V))
    → length (delete_kid k m) ≤ length m
unfolding delete_kid
length-delete_kid-le k [] = omega arith
length-delete_kid-le k ((j, v) ∷ m) = elim (Bool-cases (same_kid j k)) [
  | inl e ↦ rw e (omega (arith, length-delete_kid-le k m))
  | inr e ↦ rw e (omega (arith, length-delete_kid-le k m))
]

-- Deleting a key that is there makes the list shorter.
length-delete_kid-found {ℓ} :
    {V : Type ℓ} (k : Option String) (v : V) (m : List (Option String × V))
    → find_kid k m ≡ some v
    → suc (length (delete_kid k m)) ≤ length m
unfolding delete_kid find_kid
length-delete_kid-found k v [] e = cc
length-delete_kid-found k v ((j, w) ∷ m) e = elim (Bool-cases (same_kid j k)) [
  | inl t ↦ rw t (omega (arith, length-delete_kid-le k m))
  | inr t ↦ rw t (omega (arith, length-delete_kid-found k v m (rw t at e)))
]

-- A key for signing, under its own id.
abbrev pub IsEntry : {O : Type 0} → Option String × PyJwk O → Type 0
IsEntry (kid, k) = (is_signing_key k ≡ true) × (same_id (key_id k) kid ≡ true)

module _ {O : Type 0} where
  pub record IsSoundCache (c : KeyCachingClient O) : Type 0 where
    pub entries : All IsEntry c.cached_keys
    pub fits : length c.cached_keys ≤ c.max_cached_keys

module _ {O : Type 0} (b : Backend O) where
  called-IsEntry :
      (client : PyJwkClient) (kid : Option String) (now : ℤ) (first second : Request) (k : PyJwk O)
      → (get_signing_key b client kid now first second).0 ≡ ok k
      → IsEntry (kid, k)
  called-IsEntry client kid now first second k h =
      let (v, source, found) = get_signing_key-IsFound b client kid now first second k h in
      (found.match.signs, found.match.has_id)

  remember-IsSound :
      (max : ℕ) (kid : Option String) (r : Result (PyJwk O)) (keys : List (Option String × PyJwk O))
      → ((k : PyJwk O) → r ≡ ok k → IsEntry (kid, k))
      → All IsEntry keys
      → length keys ≤ max
      → All IsEntry (remember max kid r keys) × (length (remember max kid r keys) ≤ max)
  remember-IsSound max kid (err e) keys p h l = (h, l)
  remember-IsSound max kid (ok k) keys p h l =
      (All-take IsEntry max ((kid, k) ∷ keys) (p k refl, h), length-take-le max ((kid, k) ∷ keys))

  -- One call keeps the cache sound, and returns a key for signing with the id that was asked for.
  call-IsSound :
      (o : Option (PyJwk O)) (c : KeyCachingClient O) (kid : Option String) (now : ℤ)
      (first second : Request)
      → find_kid kid c.cached_keys ≡ o
      → IsSoundCache c
      → IsSoundCache (hit_or_call b o c kid now first second).1
        × ((k : PyJwk O) → (hit_or_call b o c kid now first second).0 ≡ ok k → IsEntry (kid, k))
  call-IsSound (some j) c kid now first second e h =
      let entry = find_kid-All IsEntry kid j c.cached_keys e h.entries in
      (
        record {
          entries = (entry, All-delete_kid IsEntry kid c.cached_keys h.entries);
          fits = omega (arith, length-delete_kid-found kid j c.cached_keys e, h.fits);
        },
        λ k q. subst (λ (x : PyJwk O). IsEntry (kid, x)) (ok-injective q) entry,
      )
  call-IsSound none c kid now first second e h =
      let call = get_signing_key b c.client kid now first second in
      let entry = called-IsEntry c.client kid now first second in
      let (all, fits) =
        remember-IsSound c.max_cached_keys kid call.0 c.cached_keys entry h.entries h.fits in
      (record { entries = all; fits = fits }, entry)

  -- The clients that a program can reach: a new one, and one after a call.
  pub data Reached : KeyCachingClient O → Type 0 where
    new : (client : PyJwkClient) (max : ℕ) → Reached (init client max)
    called :
        (c : KeyCachingClient O) (kid : Option String) (now : ℤ) (first second : Request)
        → Reached c
        → Reached (get_cached_signing_key b c kid now first second).1

  Reached-IsSound : (c : KeyCachingClient O) → Reached c → IsSoundCache c
  unfolding get_cached_signing_key
  Reached-IsSound _ (new client max) = record { entries = tt; fits = omega arith }
  Reached-IsSound _ (called c kid now first second r) =
      (call-IsSound (find_kid kid c.cached_keys) c kid now first second refl
        (Reached-IsSound c r)).0

  -- Whatever calls were made before, the key cache holds no more than `max_cached_keys` entries, and a
  -- call returns, from the cache or not, a key for signing with the id that was asked for, a text or
  -- None.
  pub get_cached_signing_key-IsEntry :
      (c : KeyCachingClient O) (kid : Option String) (now : ℤ) (first second : Request)
      (k : PyJwk O)
      → Reached c
      → (get_cached_signing_key b c kid now first second).0 ≡ ok k
      → (length c.cached_keys ≤ c.max_cached_keys) × IsEntry (kid, k)
  unfolding get_cached_signing_key
  get_cached_signing_key-IsEntry c kid now first second k r h =
      let sound = Reached-IsSound c r in
      (
        sound.fits,
        (call-IsSound (find_kid kid c.cached_keys) c kid now first second refl sound).1 k h,
      )
