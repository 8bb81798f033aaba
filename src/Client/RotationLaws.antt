-- ===== src/Client/RotationLaws.antt =====
-- A key that the endpoint of jwt/jwks_client.py serves since the cache was filled.
use mathlib.Core.Path.{subst}
use pyjwt.Prelude.{
  true, false, ◌≡◌, refl, sym, ◌∙◌, inl, inr, Option, none, some, String, List, [], ◌∷◌, Bool-cases,
  arith,
}
use pyjwt.Prelude.Int.{ℤ, pos, ◌+ℤ◌, ltb_ℤ, leb_ℤ}
use pyjwt.Errors.{ok}
use pyjwt.Value.{Value, Dict, dict}
use pyjwt.Algorithms.{Backend}
use pyjwt.Jwk.{PyJwk, key_id}
use pyjwt.Jwk.KeySet.{PyJwkSet}
use pyjwt.Client.Cache
use pyjwt.Client.Cache.{JwkSetCache, is_expired}
use pyjwt.Client.Fetch.{
  PyJwkClient, Request, json_value, fetch_data, cached, put_fetched, make_set, keys_of, need_keys,
  is_signing_key, signing_keys, get_jwk_set, get_signing_keys, same_id, match_kid, retry,
  get_signing_key,
}
use pyjwt.Client.FetchLaws.{IsMatch, Member, here, there, cached-refresh, match_kid-signing_keys}

module _ {O : Type 0} where
  -- A signing key with the id is enough for a match.
  match_kid-total :
      (ks : List (PyJwk O)) (kid : Option String) (k : PyJwk O)
      → is_signing_key k ≡ true
      → same_id (key_id k) kid ≡ true
      → Member k ks
      → (j : PyJwk O) × (match_kid (signing_keys ks) kid ≡ some j)
  unfolding match_kid signing_keys
  match_kid-total [] kid k s i m = elim m [ ]
  match_kid-total (j ∷ ks) kid k s i here = (j, rw (s, i))
  match_kid-total (j ∷ ks) kid k s i (there m) =
      let (l, e) = match_kid-total ks kid k s i m in
      elim (Bool-cases (is_signing_key j)) [
        | inr t ↦ (l, rw t e)
        | inl t ↦ elim (Bool-cases (same_id (key_id j) kid)) [
          | inl u ↦ (j, rw (t, u))
          | inr u ↦ (l, rw (t, u) e)
        ]
      ]

  need_keys-match :
      (ks : List (PyJwk O)) (kid : Option String) (k : PyJwk O)
      → match_kid ks kid ≡ some k
      → need_keys ks ≡ ok ks
  unfolding match_kid
  need_keys-match [] kid k h = cc
  need_keys-match (j ∷ ks) kid k h = refl

-- What was put at a time is not expired then.
ltb-add_self : (t l : ℤ) → leb_ℤ (pos 0) l ≡ true → ltb_ℤ (t +ℤ l) t ≡ false
unfolding ◌+ℤ◌
ltb-add_self t l h = ground arith

-- What an answered request leaves in the cache is there when it is read at that time.
cached-put_fetched :
    (c : JwkSetCache Value) (now finished : ℤ) (d : Dict)
    → leb_ℤ (pos 0) c.lifespan ≡ true
    → cached
        (put_fetched (some c) (record { response = json_value (dict d); finished = finished }))
        false
        finished
      ≡ some (dict d)
unfolding Cache.get Cache.put is_expired
cached-put_fetched c now finished d h =
    let fresh = ltb-add_self finished c.lifespan h in
    elim (Bool-cases (ltb_ℤ Cache.minus_one c.lifespan)) [ inl t ↦ rw (t, fresh) | inr t ↦ rw t ]

module _ {O : Type 0} (b : Backend O) where
  -- The refresh finds a match.
  retry-match :
      (client : PyJwkClient) (kid : Option String) (now : ℤ) (second : Request) (d : Dict)
      (set : PyJwkSet O) (k : PyJwk O)
      → second.response ≡ json_value (dict d)
      → make_set b (ok (dict d)) ≡ ok set
      → match_kid (signing_keys set.keys) kid ≡ some k
      → retry b client kid now second
        ≡ (ok k, record client { jwk_set_cache = put_fetched client.jwk_set_cache second })
  unfolding retry get_signing_keys get_jwk_set fetch_data
  retry-match client kid now second d set k answered made m = rw (
    cached-refresh client.jwk_set_cache now,
    answered,
    made,
    need_keys-match (signing_keys set.keys) kid k m,
    m,
  )

  missed :
      (client : PyJwkClient) (kid : Option String) (now : ℤ) (first second : Request) (v : Value)
      (ks : List (PyJwk O))
      → cached client.jwk_set_cache false now ≡ some v
      → keys_of (make_set b (ok v)) ≡ ok ks
      → match_kid ks kid ≡ none
      → get_signing_key b client kid now first second ≡ retry b client kid now second
  unfolding get_signing_key get_signing_keys get_jwk_set
  missed client kid now first second v ks e1 e2 e3 = rw (e1, e2, e3)

  -- If the cached data has signing keys but none that matches, and the refresh answers an object whose
  -- key set has a signing key with the id, then a signing key of that set with the id is returned, and
  -- the cache, whose lifespan is not negative, gives the answer back at the time it was stored.
  pub get_signing_key-rotated :
      (client : PyJwkClient) (c : JwkSetCache Value) (kid : Option String) (now finished : ℤ)
      (first : Request) (v : Value) (ks : List (PyJwk O)) (d : Dict) (set : PyJwkSet O)
      (k : PyJwk O)
      → client.jwk_set_cache ≡ some c
      → leb_ℤ (pos 0) c.lifespan ≡ true
      → cached client.jwk_set_cache false now ≡ some v
      → keys_of (make_set b (ok v)) ≡ ok ks
      → match_kid ks kid ≡ none
      → make_set b (ok (dict d)) ≡ ok set
      → is_signing_key k ≡ true
      → same_id (key_id k) kid ≡ true
      → Member k set.keys
      → (j : PyJwk O) × (client' : PyJwkClient) × (get_signing_key b client kid now first
            (record { response = json_value (dict d); finished = finished })
          ≡ (ok j, client'))
        × IsMatch set.keys kid j
        × (cached client'.jwk_set_cache false finished ≡ some (dict d))
  get_signing_key-rotated client c kid now finished first v ks d set k has_cache lifespan e1 e2 e3
        made signs has_id member =
      let second : Request = record { response = json_value (dict d); finished = finished } in
      let (j, m) = match_kid-total set.keys kid k signs has_id member in
      (
        j,
        record client { jwk_set_cache = put_fetched client.jwk_set_cache second },
        missed client kid now first second v ks e1 e2 e3
            ∙ retry-match client kid now second d set j refl made m,
        match_kid-signing_keys set.keys kid j m,
        subst
            (λ (o : Option (JwkSetCache Value)).
              cached (put_fetched o second) false finished ≡ some (dict d))
            (sym has_cache) (cached-put_fetched c now finished d lifespan),
      )
