-- ===== src/Client/FetchLaws.antt =====
-- What `PyJWKClient.get_signing_key` of jwt/jwks_client.py returns, and what a failed request leaves.
use mathlib.Core.Path.{subst}
use pyjwt.Prelude.{
  Bool, true, false, ◌≡◌, refl, ap, ◌∙◌, ◌⊎◌, inl, inr, Option, none, some, String, List, [], ◌∷◌,
  Bool-cases, some-eq,
}
use pyjwt.Prelude.Int.{ℤ}
use pyjwt.Errors.{Result, ok, err, ◌>>=◌}
use pyjwt.Errors.Bind.{>>=-eq-ok, ok-injective}
use pyjwt.Value.{Value}
use pyjwt.Algorithms.{Backend}
use pyjwt.Jwk.{PyJwk, key_id}
use pyjwt.Jwk.KeySet.{PyJwkSet}
use pyjwt.Client.Cache.{JwkSetCache}
use pyjwt.Client.Fetch.{
  PyJwkClient, Request, outcome, fetch_data, cached, data_or_fetch, make_set, get_jwk_set,
  is_signing_key, signing_keys, need_keys, keys_of, get_signing_keys, same_id, match_kid,
  need_match, retry, first_match, get_signing_key,
}

-- An element of a list.
pub data Member {ℓ} {A : Type ℓ} (a : A) : List A → Type ℓ where
  here : {as' : List A} → Member a (a ∷ as')
  there : {b : A} {as' : List A} → Member a as' → Member a (b ∷ as')

module _ {O : Type 0} where
  -- The first of the keys that signs and has the id.
  pub record IsMatch (keys : List (PyJwk O)) (kid : Option String) (k : PyJwk O) : Type 0 where
    pub signs : is_signing_key k ≡ true
    pub has_id : same_id (key_id k) kid ≡ true
    pub member : Member k keys

  later :
      {ks : List (PyJwk O)} {kid : Option String} {k : PyJwk O} (j : PyJwk O)
      → IsMatch ks kid k
      → IsMatch (j ∷ ks) kid k
  later j m = record { signs = m.signs; has_id = m.has_id; member = there m.member }

  pub match_kid-signing_keys :
      (ks : List (PyJwk O)) (kid : Option String) (k : PyJwk O)
      → match_kid (signing_keys ks) kid ≡ some k
      → IsMatch ks kid k
  unfolding match_kid signing_keys
  match_kid-signing_keys [] kid k h = cc
  match_kid-signing_keys (j ∷ ks) kid k h = elim (Bool-cases (is_signing_key j)) [
    | inl t ↦
        let h1 = rw t at h in
        elim (Bool-cases (same_id (key_id j) kid)) [
          | inl u ↦
              let e = some-eq (rw u at h1) in
              subst (IsMatch (j ∷ ks) kid) e (record { signs = t; has_id = u; member = here })
          | inr u ↦ later j (match_kid-signing_keys ks kid k (rw u at h1))
        ]
    | inr t ↦ later j (match_kid-signing_keys ks kid k (rw t at h))
  ]

-- Where the data may come from: the cache, or the answer to one of the two requests.
abbrev pub IsSource : PyJwkClient → ℤ → Request → Request → Value → Type 0
IsSource client now first second v =
    (cached client.jwk_set_cache false now ≡ some v)
    ⊎ ((outcome first.response ≡ ok v) ⊎ (outcome second.response ≡ ok v))

pub cached-refresh : (o : Option (JwkSetCache Value)) (now : ℤ) → cached o true now ≡ none
cached-refresh none now = refl
cached-refresh (some c) now = refl

module _ {O : Type 0} (b : Backend O) where
  -- The key set of some data has the key, and it matches.
  pub record IsFound (v : Value) (kid : Option String) (k : PyJwk O) : Type 0 where
    pub set : PyJwkSet O
    pub is_set : make_set b (ok v) ≡ ok set
    pub match : IsMatch set.keys kid k

  -- The data that the set was made from.
  make_set-data :
      (r : Result Value) (s : PyJwkSet O)
      → make_set b r ≡ ok s
      → (v : Value) × (r ≡ ok v) × (make_set b (ok v) ≡ ok s)
  make_set-data (ok v) s h = (v, refl, h)
  make_set-data (err e) s h = cc

  need_keys-eq-ok : (ks ks' : List (PyJwk O)) → need_keys ks ≡ ok ks' → ks ≡ ks'
  need_keys-eq-ok [] ks' h = cc
  need_keys-eq-ok (k ∷ ks) ks' h = ok-injective h

  -- The first match among the signing keys of some data.
  keys_of-match :
      (r : Result Value) (ks : List (PyJwk O)) (kid : Option String) (k : PyJwk O)
      → keys_of (make_set b r) ≡ ok ks
      → match_kid ks kid ≡ some k
      → (v : Value) × (r ≡ ok v) × IsFound v kid k
  keys_of-match r ks kid k h m =
      let (s, e, h1) = >>=-eq-ok (make_set b r) _ h in
      let same = need_keys-eq-ok (signing_keys s.keys) ks h1 in
      let (v, e1, e2) = make_set-data r s e in
      (
        v,
        e1,
        record {
          set = s;
          is_set = e2;
          match = match_kid-signing_keys s.keys kid k (ap (λ l. match_kid l kid) same ∙ m);
        },
      )

  data_or_fetch-source :
      (o : Option Value) (client : PyJwkClient) (r : Request) (v : Value)
      → (data_or_fetch o client r).0 ≡ ok v
      → (o ≡ some v) ⊎ (outcome r.response ≡ ok v)
  unfolding fetch_data
  data_or_fetch-source none client r v h = inr h
  data_or_fetch-source (some w) client r v h = inl (ap some (ok-injective h))

  -- One try, with or without the cache.
  keys-source :
      (client : PyJwkClient) (refresh : Bool) (now : ℤ) (r : Request) (ks : List (PyJwk O))
      (kid : Option String) (k : PyJwk O)
      → (get_signing_keys b client refresh now r).0 ≡ ok ks
      → match_kid ks kid ≡ some k
      → (v : Value) × ((cached client.jwk_set_cache refresh now ≡ some v)
          ⊎ (outcome r.response ≡ ok v))
        × IsFound v kid k
  unfolding get_signing_keys get_jwk_set
  keys-source client refresh now r ks kid k h m =
      let o = cached client.jwk_set_cache refresh now in
      let (v, e, f) = keys_of-match (data_or_fetch o client r).0 ks kid k h m in
      (v, data_or_fetch-source o client r v e, f)

  need_match-eq-ok : (o : Option (PyJwk O)) (k : PyJwk O) → need_match o ≡ ok k → o ≡ some k
  need_match-eq-ok none k h = cc
  need_match-eq-ok (some j) k h = ap some (ok-injective h)

  retry-source :
      (client : PyJwkClient) (now : ℤ) (r : Request) (kid : Option String) (k : PyJwk O)
      → (retry b client kid now r).0 ≡ ok k
      → (v : Value) × (outcome r.response ≡ ok v) × IsFound v kid k
  unfolding retry
  retry-source client now r kid k h =
      let (ks, e, h1) = >>=-eq-ok (get_signing_keys b client true now r).0 _ h in
      let (v, from, f) =
        keys-source client true now r ks kid k e (need_match-eq-ok (match_kid ks kid) k h1) in
      elim from [
        | inl c ↦ let none_cached = cached-refresh client.jwk_set_cache now in cc
        | inr c ↦ (v, c, f)
      ]

  first_match-source :
      (m : Result (Option (PyJwk O))) (client : PyJwkClient) (kid : Option String) (now : ℤ)
      (second : Request) (k : PyJwk O)
      → (first_match b m client kid now second).0 ≡ ok k
      → (m ≡ ok (some k)) ⊎ ((v : Value) × (outcome second.response ≡ ok v) × IsFound v kid k)
  first_match-source (err e) client kid now second k h = cc
  first_match-source (ok (some j)) client kid now second k h =
      inl (ap (λ (x : PyJwk O). ok (some x)) (ok-injective h))
  first_match-source (ok none) client kid now second k h =
      inr (retry-source client now second kid k h)

  -- A key that `get_signing_key` returns is for signing, has the id that was asked for, and is a key
  -- of the set made from the cached data or from the answer to one of the two requests.
  pub get_signing_key-IsFound :
      (client : PyJwkClient) (kid : Option String) (now : ℤ) (first second : Request) (k : PyJwk O)
      → (get_signing_key b client kid now first second).0 ≡ ok k
      → (v : Value) × IsSource client now first second v × IsFound v kid k
  unfolding get_signing_key
  get_signing_key-IsFound client kid now first second k h =
      let keys = get_signing_keys b client false now first in
      elim (first_match-source (keys.0 >>= λ ks. ok (match_kid ks kid)) keys.1 kid now second k h) [
        | inl e ↦
            let (ks, e1, e2) = >>=-eq-ok keys.0 _ e in
            let (v, from, f) = keys-source client false now first ks kid k e1 (ok-injective e2) in
            elim from [ inl c ↦ (v, inl c, f) | inr c ↦ (v, inr (inl c), f) ]
        | inr (v, c, f) ↦ (v, inr (inr c), f)
      ]
