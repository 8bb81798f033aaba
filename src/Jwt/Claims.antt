-- ===== src/Jwt/Claims.antt =====
-- `_validate_claims` of jwt/api_jwt.py and the checks that it calls, in their order.
use pyjwt.Prelude.{
  Bool, true, false, ◌&&◌, ◌||◌, not, Option, none, some, String, List, [], ◌∷◌, ◌==◌,
  if◌then◌else◌,
}
use pyjwt.Prelude.Int.{ℤ, ◌+ℤ◌, ◌-ℤ◌, ltb_ℤ, leb_ℤ}
use pyjwt.Errors.{
  Result, ok, raise, raise_if, except_raise, type_error, value_error, decode_error,
  expired_signature_error, immature_signature_error, invalid_audience_error,
  invalid_issued_at_error, invalid_issuer_error, invalid_jti_error, invalid_subject_error,
  missing_required_claim_error, ◌>>=◌, ◌>>◌,
}
use pyjwt.Value.{
  Value, Items, Dict, str, list, nil, cons, get, has, is_none, is_str, eq_str, truthy, value_in,
}
use pyjwt.Jwt.Numbers.{to_int, seconds}
use pyjwt.Jwt.Options.{FullOptions}

-- The `audience` argument: None, a text, an iterable of texts, or an object that is not iterable.
pub data Audience : Type 0 where
  unspecified : Audience
  one : String → Audience
  many : List String → Audience
  not_iterable : Audience

-- The `issuer` argument: None, a text, a container of texts, or an object without `in`.
pub data Issuer : Type 0 where
  unspecified : Issuer
  one : String → Issuer
  many : List String → Issuer
  not_container : Issuer

-- The `leeway` argument in microseconds, as a `timedelta` or as a number of seconds.
pub data Leeway : Type 0 where
  timedelta : ℤ → Leeway
  number : ℤ → Leeway

abbrev pub total_seconds : Leeway → ℤ
total_seconds (timedelta n) = n
total_seconds (number n) = n

unfoldable pub validate_required_claims : Dict → List String → Result (Unit {0})
validate_required_claims payload [] = ok tt
validate_required_claims payload (claim ∷ claims) = do
  raise_if (is_none (get payload claim)) missing_required_claim_error claim
  validate_required_claims payload claims

unfoldable pub validate_iat : Dict → ℤ → ℤ → Result (Unit {0})
validate_iat payload now leeway = do
  iat ←
      except_raise (to_int (get payload "iat")) value_error invalid_issued_at_error
        "Issued At claim (iat) must be an integer."
  raise_if (ltb_ℤ (now +ℤ leeway) (seconds iat)) immature_signature_error
      "The token is not yet valid (iat)"

unfoldable pub validate_nbf : Dict → ℤ → ℤ → Result (Unit {0})
validate_nbf payload now leeway = do
  nbf ←
      except_raise (to_int (get payload "nbf")) value_error decode_error
        "Not Before claim (nbf) must be an integer."
  raise_if (ltb_ℤ (now +ℤ leeway) (seconds nbf)) immature_signature_error
      "The token is not yet valid (nbf)"

unfoldable pub validate_exp : Dict → ℤ → ℤ → Result (Unit {0})
validate_exp payload now leeway = do
  exp ←
      except_raise (to_int (get payload "exp")) value_error decode_error
        "Expiration Time claim (exp) must be an integer."
  raise_if (leb_ℤ (seconds exp) (now -ℤ leeway)) expired_signature_error "Signature has expired"

-- `payload["sub"]` is a text here.
abbrev pub check_subject : Value → Option String → Result (Unit {0})
check_subject sub none = ok tt
check_subject sub (some subject) =
    raise_if (not (eq_str sub subject)) invalid_subject_error "Invalid subject"

unfoldable pub validate_sub : Dict → Option String → Result (Unit {0})
validate_sub payload subject = if not (has payload "sub") then ok tt else do
  raise_if (not (is_str (get payload "sub"))) invalid_subject_error "Subject must be a string"
  check_subject (get payload "sub") subject

unfoldable pub validate_jti : Dict → Result (Unit {0})
validate_jti payload =
    if not (has payload "jti")
    then ok tt
    else raise_if (not (is_str (get payload "jti"))) invalid_jti_error "JWT ID must be a string"

-- The values of a list that are texts; a value that is none stops the check.
abbrev pub all_str : Items → Bool
all_str nil = true
all_str (cons v vs) = is_str v && all_str vs

-- s in values
abbrev pub item_in : String → Items → Bool
item_in s nil = false
item_in s (cons v vs) = eq_str v s || item_in s vs

-- any(aud in audience_claims for aud in audience)
abbrev pub any_in : List String → Items → Bool
any_in [] claims = false
any_in (aud ∷ auds) claims = item_in aud claims || any_in auds claims

abbrev pub audience_claims : Value → Value
audience_claims (str s) = list (cons (str s) nil)
audience_claims v = v

abbrev pub audiences : Audience → List String
audiences (one s) = s ∷ []
audiences (many l) = l
audiences _ = []

abbrev pub check_strict : Audience → Value → Result (Unit {0})
check_strict (one s) (str c) =
    raise_if (not (c == s)) invalid_audience_error "Audience doesn't match (strict)"
check_strict (one s) _ = raise invalid_audience_error "Invalid claim format in token (strict)"
check_strict _ _ = raise invalid_audience_error "Invalid audience (strict)"

abbrev pub is_iterable : Audience → Bool
is_iterable not_iterable = false
is_iterable _ = true

abbrev pub match_audience : Audience → Value → Result (Unit {0})
match_audience audience (list claims) = do
  raise_if (not (all_str claims)) invalid_audience_error "Invalid claim format in token"
  raise_if (not (is_iterable audience)) type_error "object is not iterable"
  raise_if (not (any_in (audiences audience) claims)) invalid_audience_error
      "Audience doesn't match"
match_audience audience _ = raise invalid_audience_error "Invalid claim format in token"

abbrev pub is_absent : Dict → Bool
is_absent payload = not (has payload "aud") || not (truthy (get payload "aud"))

unfoldable pub check_audience : Dict → Audience → Bool → Result (Unit {0})
check_audience payload audience strict = do
  raise_if (is_absent payload) missing_required_claim_error "aud"
  (if strict
      then check_strict audience (get payload "aud")
      else match_audience audience (audience_claims (get payload "aud")))

unfoldable pub validate_aud : Dict → Audience → Bool → Result (Unit {0})
unfolding check_audience
validate_aud payload unspecified strict =
    raise_if (not (is_absent payload)) invalid_audience_error "Invalid audience"
validate_aud payload (one s) strict = check_audience payload (one s) strict
validate_aud payload (many l) strict = check_audience payload (many l) strict
validate_aud payload not_iterable strict = check_audience payload not_iterable strict

abbrev pub check_issuer : Value → Issuer → Result (Unit {0})
check_issuer iss unspecified = ok tt
check_issuer iss (one s) = raise_if (not (eq_str iss s)) invalid_issuer_error "Invalid issuer"
check_issuer iss (many l) = raise_if (not (value_in iss l)) invalid_issuer_error "Invalid issuer"
check_issuer iss not_container =
    raise invalid_issuer_error "Issuer param must be \"str\" or \"Container[str]\""

unfoldable pub require_issuer : Dict → Issuer → Result (Unit {0})
require_issuer payload issuer = do
  raise_if (not (has payload "iss")) missing_required_claim_error "iss"
  raise_if (not (is_str (get payload "iss"))) invalid_issuer_error
      "Payload Issuer (iss) must be a string"
  check_issuer (get payload "iss") issuer

unfoldable pub validate_iss : Dict → Issuer → Result (Unit {0})
unfolding require_issuer
validate_iss payload unspecified = ok tt
validate_iss payload (one s) = require_issuer payload (one s)
validate_iss payload (many l) = require_issuer payload (many l)
validate_iss payload not_container = require_issuer payload not_container

-- What the caller asks of the claims.
pub record Expected : Type 0 where
  pub audience : Audience
  pub issuer : Issuer
  pub subject : Option String
  pub leeway : Leeway

-- `if b: check`
abbrev pub when : Bool → Result (Unit {0}) → Result (Unit {0})
when b check = if b then check else ok tt

-- `now` is the time in microseconds.
unfoldable pub validate_claims : Dict → FullOptions → Expected → ℤ → Result (Unit {0})
validate_claims payload options expected now =
    let leeway = total_seconds expected.leeway in
    do
      raise_if (not (is_iterable expected.audience)) type_error
          "audience must be a string, iterable or None"
      validate_required_claims payload options.require
      when (has payload "iat" && options.verify_iat) (validate_iat payload now leeway)
      when (has payload "nbf" && options.verify_nbf) (validate_nbf payload now leeway)
      when (has payload "exp" && options.verify_exp) (validate_exp payload now leeway)
      when options.verify_iss (validate_iss payload expected.issuer)
      when options.verify_aud (validate_aud payload expected.audience options.strict_aud)
      when options.verify_sub (validate_sub payload expected.subject)
      when options.verify_jti (validate_jti payload)
