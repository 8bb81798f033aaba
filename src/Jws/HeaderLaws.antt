-- ===== src/Jws/HeaderLaws.antt =====
-- The header that `PyJWS.encode` of jwt/api_jws.py makes, entry by entry, and which headers pass
-- `_validate_headers`.
use pyjwt.Prelude.{
  String, ◌≡◌, refl, Option, none, some, Bool, true, false, ◌==◌, Bool-cases, inl, inr,
  if◌then◌else◌,
}
use pyjwt.Errors.{ok}
use pyjwt.Value.{Value, Dict, bool, lookup, has, get, truthy, is_found}
use pyjwt.Value.DictLaws.{lookup-set, lookup-remove, lookup-update, IsUnique, or_found}
use pyjwt.Jws.Headers.{validate_headers}
use pyjwt.Jws.Encode.{drop_typ, mark_b64, make_header}

lookup-drop_typ :
    (k : String) (d : Dict) → ("typ" == k) ≡ false → lookup k (drop_typ d) ≡ lookup k d
lookup-drop_typ k d h = elim (Bool-cases (truthy (get d "typ"))) [
  | inl t ↦ rw t
  | inr t ↦ rw (t, lookup-remove, h)
]

lookup-mark_b64 :
    (k : String) (b : Bool) (d : Dict) → ("b64" == k) ≡ false → lookup k (mark_b64 b d) ≡ lookup k d
lookup-mark_b64 k true d h = rw (lookup-set, h)
lookup-mark_b64 k false d h = elim (Bool-cases (has d "b64")) [
  | inl t ↦ rw (t, lookup-remove, h)
  | inr t ↦ rw t
]

none_of_not_found : (o : Option Value) → is_found o ≡ false → o ≡ none
none_of_not_found none h = refl
none_of_not_found (some v) h = cc

b64-mark_b64 :
    (b : Bool) (d : Dict) → lookup "b64" (mark_b64 b d) ≡ (if b then some (bool false) else none)
b64-mark_b64 true d = rw lookup-set
b64-mark_b64 false d = elim (Bool-cases (has d "b64")) [
  | inl t ↦ rw (t, lookup-remove)
  | inr t ↦ rw t (none_of_not_found _ t)
]

-- If the given headers hold each key once, the header is the given headers over the default
-- algorithm, but for "typ" and "b64"; unless the payload is detached it has no "b64", and if it
-- is, "b64" is false.
pub lookup-make_header :
    (algorithm : Value) (given : Dict) (detached : Bool)
    → IsUnique given
    → ((k : String)
        → ("typ" == k) ≡ false
        → ("b64" == k) ≡ false
        → lookup k (make_header algorithm given detached)
          ≡ or_found (lookup k given) (if "alg" == k then some algorithm else none))
      × (lookup "b64" (make_header algorithm given detached)
          ≡ (if detached then some (bool false) else none))
unfolding make_header
lookup-make_header algorithm given detached u = (
  λ k ht hb.
      rw (lookup-mark_b64 k detached _ hb, lookup-drop_typ k _ ht, lookup-update k _ given u)
        (unfold lookup in rw ht),
  b64-mark_b64 detached _,
)

-- Headers that `encode` accepted are accepted by `decode_complete`, if there is no "crit".
pub validate_headers-decoding :
    (d e : Dict) (u : Unit {0})
    → validate_headers d true ≡ ok u
    → lookup "kid" e ≡ lookup "kid" d
    → lookup "crit" e ≡ none
    → validate_headers e false ≡ ok tt
unfolding validate_headers
validate_headers-decoding d e u h kid crit = rw (kid, crit) h
