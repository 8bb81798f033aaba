-- ===== src/Jwt/ErrorLaws.antt =====
-- Which exceptions `_validate_claims` of jwt/api_jwt.py lets out.
use pyjwt.Prelude.{Bool, true, false, ◌&&◌, is_in, arith, ◌≡◌, refl, String, List, [], ◌∷◌}
use pyjwt.Prelude.Int.{ℤ}
use pyjwt.Errors.{
  ErrorClass, Result, raise_if, except_raise, isinstance, value_error, invalid_token_error, ◌>>=◌,
}
use pyjwt.Value.{Dict, get, has, is_none}
use pyjwt.Jwt.Numbers.{to_int}
use pyjwt.Jwt.Options.{FullOptions}
use pyjwt.Jwt.Claims.{
  Expected, is_iterable, total_seconds, when, validate_required_claims, validate_iat, validate_nbf,
  validate_exp, validate_claims,
}
use pyjwt.Errors.Raising.{
  RaisesOnly, RaisesOnly->>=, RaisesOnly-except_raise, RaisesOnly-raise_if, RaisesOnly->>,
}
use pyjwt.Jwt.NumberErrors.{is_numeric, RaisesOnly-to_int}
use pyjwt.Jwt.PartyErrors.{
  RaisesOnly-validate_sub, RaisesOnly-validate_jti, RaisesOnly-validate_iss,
  RaisesOnly-validate_aud,
}

module _ (payload : Dict) (now leeway : ℤ) where
  -- Reading a time and testing it.
  RaisesOnly-time :
      (claim : String) (c c' : ErrorClass) (m m' : String) (test : ℤ → Bool)
      → is_numeric (get payload claim) ≡ true
      → isinstance (record { cls = c; message = m }) invalid_token_error ≡ true
      → isinstance (record { cls = c'; message = m' }) invalid_token_error ≡ true
      → RaisesOnly invalid_token_error (
          except_raise (to_int (get payload claim)) value_error c m >>= λ t.
          raise_if (test t) c' m')
  RaisesOnly-time claim c c' m m' test h p p' =
      RaisesOnly->>= invalid_token_error _ _
        (RaisesOnly-except_raise (to_int (get payload claim)) value_error c invalid_token_error m
          (RaisesOnly-to_int (get payload claim) h) p)
        (λ t. RaisesOnly-raise_if (test t) invalid_token_error c' m' p')

RaisesOnly-validate_required_claims :
    (payload : Dict) (claims : List String)
    → RaisesOnly invalid_token_error (validate_required_claims payload claims)
unfolding validate_required_claims
RaisesOnly-validate_required_claims payload [] = tt
RaisesOnly-validate_required_claims payload (claim ∷ claims) =
    RaisesOnly->>= invalid_token_error _ _
      (RaisesOnly-raise_if (is_none (get payload claim)) invalid_token_error _ _ refl)
      (λ u. RaisesOnly-validate_required_claims payload claims)

RaisesOnly-when :
    (b : Bool) (m : Result (Unit {0}))
    → (b ≡ true → RaisesOnly invalid_token_error m)
    → RaisesOnly invalid_token_error (when b m)
RaisesOnly-when true m p = p refl
RaisesOnly-when false m p = tt

and_left : (a b : Bool) → (a && b) ≡ true → a ≡ true
and_left a b h = ground arith

-- Every time claim that is there is numeric.
abbrev pub HasNumericTimes : Dict → Type 0
HasNumericTimes payload =
    (claim : String)
    → is_in claim ("exp" ∷ "iat" ∷ "nbf" ∷ []) ≡ true
    → has payload claim ≡ true
    → is_numeric (get payload claim) ≡ true

-- Claims whose times are numeric (numbers but infinity, Booleans or texts), checked against an
-- audience that is iterable or None, either pass or raise an `InvalidTokenError`.
pub validate_claims-RaisesOnly :
    (payload : Dict) (o : FullOptions) (x : Expected) (now : ℤ)
    → is_iterable x.audience ≡ true
    → HasNumericTimes payload
    → RaisesOnly invalid_token_error (validate_claims payload o x now)
unfolding validate_claims validate_iat validate_nbf validate_exp
validate_claims-RaisesOnly payload o x now e h =
    let l = total_seconds x.leeway in
    rw e (
      RaisesOnly->> _ _ (RaisesOnly-validate_required_claims payload o.require) (
        RaisesOnly->> _ _
          (RaisesOnly-when (has payload "iat" && o.verify_iat) _ (λ b.
            RaisesOnly-time payload now l "iat" _ _ _ _ _ (h "iat" refl (and_left _ _ b)) refl
              refl))
          (RaisesOnly->> _ _
            (RaisesOnly-when (has payload "nbf" && o.verify_nbf) _ (λ b.
              RaisesOnly-time payload now l "nbf" _ _ _ _ _ (h "nbf" refl (and_left _ _ b)) refl
                refl))
            (RaisesOnly->> _ _
              (RaisesOnly-when (has payload "exp" && o.verify_exp) _ (λ b.
                RaisesOnly-time payload now l "exp" _ _ _ _ _ (h "exp" refl (and_left _ _ b)) refl
                  refl))
              (RaisesOnly->> _ _
                (RaisesOnly-when o.verify_iss _ (λ b. RaisesOnly-validate_iss payload x.issuer))
                (RaisesOnly->> _ _
                  (RaisesOnly-when o.verify_aud _
                    (λ b. RaisesOnly-validate_aud payload x.audience o.strict_aud e))
                  (RaisesOnly->> _ _
                    (RaisesOnly-when o.verify_sub _
                      (λ b. RaisesOnly-validate_sub payload x.subject))
                    (RaisesOnly-when o.verify_jti _ (λ b. RaisesOnly-validate_jti payload)))))))))
