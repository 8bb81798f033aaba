-- ===== src/Jwt/TimeLaws.antt =====
-- The checks of "iat", "nbf" and "exp" of jwt/api_jwt.py.
use pyjwt.Prelude.{iff_trans, Bool, false, ◌≡◌, ◌↔◌, String, arith}
use pyjwt.Prelude.Int.{ℤ, ◌+ℤ◌, ◌-ℤ◌, ◌≤ℤ◌, ltb_ℤ, leb_ℤ}
use pyjwt.Errors.{ErrorClass, Result, ok, raise_if, value_error, except_raise, ◌>>=◌}
use pyjwt.Errors.Bind.{>>=-eq-ok, except_raise-eq-ok, raise_if-eq-ok_iff}
use pyjwt.Value.{Dict, get}
use pyjwt.Jwt.Numbers.{to_int, seconds}
use pyjwt.Jwt.Claims.{validate_iat, validate_nbf, validate_exp}
use pyjwt.Jwt.ClaimsSpec.{◌<ℤ◌, HasStarted, IsLive}

ltb_false_iff : (a b : ℤ) → (ltb_ℤ a b ≡ false) ↔ (b ≤ℤ a)
ltb_false_iff a b = ground arith

leb_false_iff : (a b : ℤ) → (leb_ℤ a b ≡ false) ↔ (b <ℤ a)
leb_false_iff a b = ground arith

-- Read a number, then test it.
passes_iff :
    (r : Result ℤ) (test : ℤ → Bool) (c c' : ErrorClass) (m m' : String)
    → ((except_raise r value_error c m >>= λ t. raise_if (test t) c' m') ≡ ok tt)
      ↔ ((t : ℤ) × (r ≡ ok t) × (test t ≡ false))
passes_iff r test c c' m m' = (
  λ h.
      let (t, e, h1) = >>=-eq-ok (except_raise r value_error c m) _ h in
      (t, except_raise-eq-ok r value_error c m e, (raise_if-eq-ok_iff (test t) c' m').0 h1),
  λ (t, e, h). rw (e, h),
)

module _ (payload : Dict) (now leeway : ℤ) where
  started_iff :
      (claim : String)
      → ((t : ℤ) × (to_int (get payload claim) ≡ ok t)
          × (ltb_ℤ (now +ℤ leeway) (seconds t) ≡ false))
        ↔ HasStarted payload claim now leeway
  started_iff claim = (
    λ (t, e, h). (t, e, (ltb_false_iff (now +ℤ leeway) (seconds t)).0 h),
    λ (t, e, h). (t, e, (ltb_false_iff (now +ℤ leeway) (seconds t)).1 h),
  )

  IsLive-iff :
      ((t : ℤ) × (to_int (get payload "exp") ≡ ok t) × (leb_ℤ (seconds t) (now -ℤ leeway) ≡ false))
      ↔ IsLive payload now leeway
  IsLive-iff = (
    λ (t, e, h). (t, e, (leb_false_iff (seconds t) (now -ℤ leeway)).0 h),
    λ (t, e, h). (t, e, (leb_false_iff (seconds t) (now -ℤ leeway)).1 h),
  )

  -- `_validate_iat` passes exactly when "iat" is a time that has come.
  pub validate_iat_iff :
      (validate_iat payload now leeway ≡ ok tt) ↔ HasStarted payload "iat" now leeway
  unfolding validate_iat
  validate_iat_iff =
      iff_trans (passes_iff (to_int (get payload "iat")) _ _ _ _ _) (started_iff "iat")

  -- `_validate_nbf` passes exactly when "nbf" is a time that has come.
  pub validate_nbf_iff :
      (validate_nbf payload now leeway ≡ ok tt) ↔ HasStarted payload "nbf" now leeway
  unfolding validate_nbf
  validate_nbf_iff =
      iff_trans (passes_iff (to_int (get payload "nbf")) _ _ _ _ _) (started_iff "nbf")

  -- `_validate_exp` passes exactly when "exp" is a time that has not come.
  pub validate_exp_iff : (validate_exp payload now leeway ≡ ok tt) ↔ IsLive payload now leeway
  unfolding validate_exp
  validate_exp_iff = iff_trans (passes_iff (to_int (get payload "exp")) _ _ _ _ _) IsLive-iff
