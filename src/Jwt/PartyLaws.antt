-- ===== src/Jwt/PartyLaws.antt =====
-- The checks of "iss", "sub", "jti" and of required claims of jwt/api_jwt.py.
use pyjwt.Prelude.{
  true, false, ◌≡◌, ◌≢◌, ◌↔◌, ◌⊎◌, inl, inr, refl, String, Option, none, some, List, [], ◌∷◌, not,
  All, is_in, arith, eq_iff, some-eq, if◌then◌else◌,
}
use pyjwt.Errors.{ErrorClass, ok, raise_if, ◌>>◌}
use pyjwt.Errors.Bind.{>>-eq-ok_iff, raise_if-eq-ok_iff}
use pyjwt.Value.{Value, Dict, null, str, get, lookup, is_none, is_str, or_default, is_found}
use pyjwt.Jwt.Claims.{
  Issuer, unspecified, one, many, not_container, check_subject, check_issuer,
  validate_required_claims, validate_sub, validate_jti, validate_iss,
}
use pyjwt.Jwt.ClaimsSpec.{IsIssuedBy, IsAbout, HasTextId}

-- `_validate_required_claims` passes exactly when every required claim is there and is not null.
pub validate_required_claims_iff :
    (payload : Dict) (claims : List String)
    → (validate_required_claims payload claims ≡ ok tt)
      ↔ All (λ (c : String). is_none (get payload c) ≡ false) claims
unfolding validate_required_claims
validate_required_claims_iff payload [] = (λ h. tt, λ h. refl)
validate_required_claims_iff payload (c ∷ claims) = (
  λ h.
      let (a, b) = (>>-eq-ok_iff _ (validate_required_claims payload claims)).0 h in
      ((raise_if-eq-ok_iff _ _ _).0 a, (validate_required_claims_iff payload claims).0 b),
  λ (a, b).
      (>>-eq-ok_iff _ (validate_required_claims payload claims)).1
        ((raise_if-eq-ok_iff _ _ _).1 a, (validate_required_claims_iff payload claims).1 b),
)

-- The checks see a claim through its lookup, `o` below.
abbrev About : Option Value → Option String → Type 0
About o none = (o ≡ none) ⊎ ((s : String) × (o ≡ some (str s)))
About o (some s) = (o ≡ none) ⊎ (o ≡ some (str s))

abbrev IssuedBy : Option Value → Issuer → Type 0
IssuedBy o unspecified = Unit
IssuedBy o (one s) = o ≡ some (str s)
IssuedBy o (many l) = (s : String) × (o ≡ some (str s)) × (is_in s l ≡ true)
IssuedBy o not_container = ⊥

str-injective : {s t : String} → ◌≡◌ {A = Value} (str s) (str t) → s ≡ t
str-injective h = cc

module _ (c : ErrorClass) (m : String) where
  sub_iff :
      (o : Option Value) (subject : Option String)
      → ((if not (is_found o)
            then ok tt
            else (raise_if (not (is_str (or_default o null))) c m
                >> check_subject (or_default o null) subject))
          ≡ ok tt)
        ↔ About o subject
  sub_iff none none = (λ h. inl refl, λ h. refl)
  sub_iff none (some s) = (λ h. inl refl, λ h. refl)
  sub_iff (some (str t)) none = (λ h. inr (t, refl), λ h. refl)
  sub_iff (some (str t)) (some s) = ground (arith, eq_iff t s)
  sub_iff (some _) none = (λ h. cc, λ h. elim h [ inl q ↦ cc | inr (t, q) ↦ cc ])
  sub_iff (some _) (some s) = (λ h. cc, λ h. elim h [ inl q ↦ cc | inr q ↦ cc ])

  jti_iff :
      (o : Option Value)
      → ((if not (is_found o) then ok tt else raise_if (not (is_str (or_default o null))) c m)
          ≡ ok tt)
        ↔ About o none
  jti_iff none = (λ h. inl refl, λ h. refl)
  jti_iff (some (str t)) = (λ h. inr (t, refl), λ h. refl)
  jti_iff (some _) = (λ h. cc, λ h. elim h [ inl q ↦ cc | inr (t, q) ↦ cc ])

module _ (c c' : ErrorClass) (m m' : String) where
  iss_iff :
      (o : Option Value) (issuer : Issuer)
      → issuer ≢ unspecified
      → ((raise_if (not (is_found o)) c' m'
            >> (raise_if (not (is_str (or_default o null))) c m
                >> check_issuer (or_default o null) issuer))
          ≡ ok tt)
        ↔ IssuedBy o issuer
  iss_iff o unspecified h = absurd (h refl)
  iss_iff none (one s) ne = (λ h. cc, λ h. cc)
  iss_iff none (many l) ne = (λ h. cc, λ (s, q, r). cc)
  iss_iff none not_container ne = (λ h. cc, λ h. absurd h)
  iss_iff (some (str t)) (one s) ne = ground (arith, eq_iff t s)
  iss_iff (some (str t)) (many l) ne =
      (λ h. (t, refl, ground arith), λ (s, q, r). let e = str-injective (some-eq q) in rw (e, r))
  iss_iff (some (str t)) not_container ne = (λ h. cc, λ h. absurd h)
  iss_iff (some _) (one s) ne = (λ h. cc, λ h. cc)
  iss_iff (some _) (many l) ne = (λ h. cc, λ (s, q, r). cc)
  iss_iff (some _) not_container ne = (λ h. cc, λ h. absurd h)

module _ (payload : Dict) where
  -- `_validate_sub` passes exactly when "sub" is missing or is the text that is asked for.
  pub validate_sub_iff :
      (subject : Option String) → (validate_sub payload subject ≡ ok tt) ↔ IsAbout payload subject
  unfolding validate_sub
  validate_sub_iff none = sub_iff _ _ (lookup "sub" payload) none
  validate_sub_iff (some s) = sub_iff _ _ (lookup "sub" payload) (some s)

  -- `_validate_jti` passes exactly when "jti" is missing or is a text.
  pub validate_jti_iff : (validate_jti payload ≡ ok tt) ↔ HasTextId payload
  unfolding validate_jti
  validate_jti_iff = jti_iff _ _ (lookup "jti" payload)

  -- `_validate_iss` passes exactly when the issuer is the one, or one of those, that are asked for.
  pub validate_iss_iff :
      (issuer : Issuer) → (validate_iss payload issuer ≡ ok tt) ↔ IsIssuedBy payload issuer
  unfolding validate_iss
  validate_iss_iff unspecified = (λ h. tt, λ h. refl)
  validate_iss_iff (one s) = iss_iff _ _ _ _ (lookup "iss" payload) (one s) (λ h. cc)
  validate_iss_iff (many l) = iss_iff _ _ _ _ (lookup "iss" payload) (many l) (λ h. cc)
  validate_iss_iff not_container = iss_iff _ _ _ _ (lookup "iss" payload) not_container (λ h. cc)
