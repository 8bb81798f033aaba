-- ===== src/Jwt/ClaimsLaws.antt =====
-- `_validate_claims` of jwt/api_jwt.py against its specification.
use pyjwt.Prelude.{Bool, true, false, ◌≡◌, ◌↔◌, ◌&&◌, not, arith, String}
use pyjwt.Prelude.Int.{ℤ, ◌≤ℤ◌, +ℤ_parts, -ℤ_parts}
use pyjwt.Errors.{ok, raise_if}
use pyjwt.Errors.Bind.{>>-eq-ok_iff, raise_if-eq-ok_iff, if-eq-ok_iff, >>-ok}
use pyjwt.Value.{Dict, has}
use pyjwt.Jwt.Options.{FullOptions}
use pyjwt.Jwt.Claims.{
  Expected, is_iterable, total_seconds, when, validate_required_claims, validate_iat, validate_nbf,
  validate_exp, validate_iss, validate_aud, validate_sub, validate_claims,
}
use pyjwt.Jwt.ClaimsSpec.{HasStarted, IsLive, IsAcceptable}
use pyjwt.Jwt.TimeLaws.{validate_iat_iff, validate_nbf_iff, validate_exp_iff}
use pyjwt.Jwt.PartyLaws.{
  validate_required_claims_iff, validate_sub_iff, validate_jti_iff, validate_iss_iff,
}
use pyjwt.Jwt.AudienceLaws.{of_not, validate_aud_iff}

and_true : (a b : Bool) → a ≡ true → b ≡ true → (a && b) ≡ true
and_true a b p q = ground arith

not_of : (b : Bool) → b ≡ true → not b ≡ false
not_of b h = ground arith

both_true : (a b : Bool) → (a && b) ≡ true → (a ≡ true) × (b ≡ true)
both_true a b h = ground arith

module _ (payload : Dict) (o : FullOptions) (x : Expected) (now : ℤ) where
  abbrev lee : ℤ
  lee = total_seconds x.leeway

  pub validate_claims-IsAcceptable :
      validate_claims payload o x now ≡ ok tt → IsAcceptable payload o x now
  unfolding validate_claims
  validate_claims-IsAcceptable h =
      let (h1, k1) = (>>-eq-ok_iff (raise_if (not (is_iterable x.audience)) _ _) _).0 h in
      let (h2, k2) = (>>-eq-ok_iff (validate_required_claims payload o.require) _).0 k1 in
      let (h3, k3) =
        (>>-eq-ok_iff (when (has payload "iat" && o.verify_iat) (validate_iat payload now lee)) _).0
          k2 in
      let (h4, k4) =
        (>>-eq-ok_iff (when (has payload "nbf" && o.verify_nbf) (validate_nbf payload now lee)) _).0
          k3 in
      let (h5, k5) =
        (>>-eq-ok_iff (when (has payload "exp" && o.verify_exp) (validate_exp payload now lee)) _).0
          k4 in
      let (h6, k6) = (>>-eq-ok_iff (when o.verify_iss (validate_iss payload x.issuer)) _).0 k5 in
      let (h7, k7) =
        (>>-eq-ok_iff (when o.verify_aud (validate_aud payload x.audience o.strict_aud)) _).0 k6 in
      let (h8, h9) = (>>-eq-ok_iff (when o.verify_sub (validate_sub payload x.subject)) _).0 k7 in
      record {
        iterable = of_not (is_iterable x.audience) ((raise_if-eq-ok_iff _ _ _).0 h1);
        required = (validate_required_claims_iff payload o.require).0 h2;
        issued = λ a b.
            (validate_iat_iff payload now lee).0 ((if-eq-ok_iff _ _).0 h3 (and_true _ _ a b));
        started = λ a b.
            (validate_nbf_iff payload now lee).0 ((if-eq-ok_iff _ _).0 h4 (and_true _ _ a b));
        live = λ a b.
            (validate_exp_iff payload now lee).0 ((if-eq-ok_iff _ _).0 h5 (and_true _ _ a b));
        issuer = λ b. (validate_iss_iff payload x.issuer).0 ((if-eq-ok_iff _ _).0 h6 b);
        audience =
            λ b. (validate_aud_iff payload x.audience o.strict_aud).0 ((if-eq-ok_iff _ _).0 h7 b);
        subject = λ b. (validate_sub_iff payload x.subject).0 ((if-eq-ok_iff _ _).0 h8 b);
        id = λ b. (validate_jti_iff payload).0 ((if-eq-ok_iff _ _).0 h9 b);
      }

  pub IsAcceptable-validate_claims :
      IsAcceptable payload o x now → validate_claims payload o x now ≡ ok tt
  unfolding validate_claims
  IsAcceptable-validate_claims a =
      >>-ok _ _ ((raise_if-eq-ok_iff _ _ _).1 (not_of (is_iterable x.audience) a.iterable)) (
        >>-ok _ _ ((validate_required_claims_iff payload o.require).1 a.required) (
          >>-ok _ _
            ((if-eq-ok_iff _ _).1 (λ b.
              let (p, q) = both_true (has payload "iat") o.verify_iat b in
              (validate_iat_iff payload now lee).1 (a.issued p q)))
            (>>-ok _ _
              ((if-eq-ok_iff _ _).1 (λ b.
                let (p, q) = both_true (has payload "nbf") o.verify_nbf b in
                (validate_nbf_iff payload now lee).1 (a.started p q)))
              (>>-ok _ _
                ((if-eq-ok_iff _ _).1 (λ b.
                  let (p, q) = both_true (has payload "exp") o.verify_exp b in
                  (validate_exp_iff payload now lee).1 (a.live p q)))
                (>>-ok _ _
                  ((if-eq-ok_iff _ _).1 (λ b. (validate_iss_iff payload x.issuer).1 (a.issuer b)))
                  (>>-ok _ _
                    ((if-eq-ok_iff _ _).1
                      (λ b. (validate_aud_iff payload x.audience o.strict_aud).1 (a.audience b)))
                    (>>-ok _ _
                      ((if-eq-ok_iff _ _).1
                        (λ b. (validate_sub_iff payload x.subject).1 (a.subject b)))
                      ((if-eq-ok_iff _ _).1 (λ b. (validate_jti_iff payload).1 (a.id b))))))))))

  -- `_validate_claims` passes exactly when the claims are acceptable by the specification: required
  -- claims present, times within the leeway, issuer, audience, subject and id as asked.
  pub validate_claims_iff : (validate_claims payload o x now ≡ ok tt) ↔ IsAcceptable payload o x now
  validate_claims_iff = (validate_claims-IsAcceptable, IsAcceptable-validate_claims)

HasStarted-later :
    (payload : Dict) (claim : String) (now now' leeway : ℤ)
    → now ≤ℤ now'
    → HasStarted payload claim now leeway
    → HasStarted payload claim now' leeway
HasStarted-later payload claim now now' leeway h (t, e, k) =
    (t, e, omega (arith, +ℤ_parts now leeway, +ℤ_parts now' leeway))

IsLive-earlier :
    (payload : Dict) (now now' leeway : ℤ)
    → now ≤ℤ now'
    → IsLive payload now' leeway
    → IsLive payload now leeway
IsLive-earlier payload now now' leeway h (t, e, k) =
    (t, e, omega (arith, -ℤ_parts now leeway, -ℤ_parts now' leeway))

-- A token is accepted over one stretch of time: if it is at two times, it is at every time between.
pub validate_claims-between :
    (payload : Dict) (o : FullOptions) (x : Expected) (before now after : ℤ)
    → before ≤ℤ now
    → now ≤ℤ after
    → validate_claims payload o x before ≡ ok tt
    → validate_claims payload o x after ≡ ok tt
    → validate_claims payload o x now ≡ ok tt
validate_claims-between payload o x before now after p q h k =
    let a = validate_claims-IsAcceptable payload o x before h in
    let b = validate_claims-IsAcceptable payload o x after k in
    let l = total_seconds x.leeway in
    IsAcceptable-validate_claims payload o x now (record {
      iterable = a.iterable;
      required = a.required;
      issued = λ e f. HasStarted-later payload "iat" before now l p (a.issued e f);
      started = λ e f. HasStarted-later payload "nbf" before now l p (a.started e f);
      live = λ e f. IsLive-earlier payload now after l q (b.live e f);
      issuer = a.issuer;
      audience = a.audience;
      subject = a.subject;
      id = a.id;
    })
