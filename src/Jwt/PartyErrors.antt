-- ===== src/Jwt/PartyErrors.antt =====
-- Which exceptions the checks of issuer, audience, subject and id of jwt/api_jwt.py let out.
use pyjwt.Prelude.{Bool, true, not, ◌==◌, Option, none, some, ◌≡◌, refl, String}
use pyjwt.Errors.{invalid_token_error}
use pyjwt.Value.{
  Value, Items, Dict, null, bool, int, float, str, list, nil, cons, dict, datetime, get, has,
  is_str, eq_str, value_in,
}
use pyjwt.Jwt.Claims.{
  Audience, Issuer, unspecified, one, many, not_iterable, not_container, is_iterable, validate_sub,
  validate_jti, check_audience, validate_aud, check_strict, match_audience, audience_claims,
  audiences, all_str, any_in, is_absent, require_issuer, check_issuer, validate_iss,
}
use pyjwt.Errors.Raising.{RaisesOnly, RaisesOnly-raise_if, RaisesOnly-if, RaisesOnly->>}

pub RaisesOnly-validate_sub :
    (payload : Dict) (subject : Option String)
    → RaisesOnly invalid_token_error (validate_sub payload subject)
unfolding validate_sub
RaisesOnly-validate_sub payload none =
    RaisesOnly-if (not (has payload "sub")) invalid_token_error _ _ tt (
      RaisesOnly->> _ _
        (RaisesOnly-raise_if (not (is_str (get payload "sub"))) invalid_token_error _ _ refl) tt)
RaisesOnly-validate_sub payload (some s) =
    RaisesOnly-if (not (has payload "sub")) invalid_token_error _ _ tt (
      RaisesOnly->> _ _
        (RaisesOnly-raise_if (not (is_str (get payload "sub"))) invalid_token_error _ _ refl)
        (RaisesOnly-raise_if (not (eq_str (get payload "sub") s)) invalid_token_error _ _ refl))

pub RaisesOnly-validate_jti :
    (payload : Dict) → RaisesOnly invalid_token_error (validate_jti payload)
unfolding validate_jti
RaisesOnly-validate_jti payload =
    RaisesOnly-if (not (has payload "jti")) invalid_token_error _ _ tt
      (RaisesOnly-raise_if (not (is_str (get payload "jti"))) invalid_token_error _ _ refl)

RaisesOnly-check_issuer :
    (v : Value) (issuer : Issuer) → RaisesOnly invalid_token_error (check_issuer v issuer)
RaisesOnly-check_issuer v unspecified = tt
RaisesOnly-check_issuer v (one s) =
    RaisesOnly-raise_if (not (eq_str v s)) invalid_token_error _ _ refl
RaisesOnly-check_issuer v (many l) =
    RaisesOnly-raise_if (not (value_in v l)) invalid_token_error _ _ refl
RaisesOnly-check_issuer v not_container = refl

RaisesOnly-require_issuer :
    (payload : Dict) (issuer : Issuer)
    → RaisesOnly invalid_token_error (require_issuer payload issuer)
unfolding require_issuer
RaisesOnly-require_issuer payload issuer =
    RaisesOnly->> _ _ (RaisesOnly-raise_if (not (has payload "iss")) invalid_token_error _ _ refl) (
      RaisesOnly->> _ _
        (RaisesOnly-raise_if (not (is_str (get payload "iss"))) invalid_token_error _ _ refl)
        (RaisesOnly-check_issuer (get payload "iss") issuer))

pub RaisesOnly-validate_iss :
    (payload : Dict) (issuer : Issuer)
    → RaisesOnly invalid_token_error (validate_iss payload issuer)
unfolding validate_iss
RaisesOnly-validate_iss payload unspecified = tt
RaisesOnly-validate_iss payload (one s) = RaisesOnly-require_issuer payload (one s)
RaisesOnly-validate_iss payload (many l) = RaisesOnly-require_issuer payload (many l)
RaisesOnly-validate_iss payload not_container = RaisesOnly-require_issuer payload not_container

RaisesOnly-check_strict :
    (a : Audience) (v : Value) → RaisesOnly invalid_token_error (check_strict a v)
RaisesOnly-check_strict (one s) (str c) =
    RaisesOnly-raise_if (not (c == s)) invalid_token_error _ _ refl
RaisesOnly-check_strict (one s) null = refl
RaisesOnly-check_strict (one s) (bool b) = refl
RaisesOnly-check_strict (one s) (int n) = refl
RaisesOnly-check_strict (one s) (float x) = refl
RaisesOnly-check_strict (one s) (list vs) = refl
RaisesOnly-check_strict (one s) (dict d) = refl
RaisesOnly-check_strict (one s) (datetime t) = refl
RaisesOnly-check_strict unspecified v = refl
RaisesOnly-check_strict (many l) v = refl
RaisesOnly-check_strict not_iterable v = refl

RaisesOnly-match_list :
    (a : Audience) (vs : Items)
    → is_iterable a ≡ true
    → RaisesOnly invalid_token_error (match_audience a (list vs))
RaisesOnly-match_list a vs h = rw h (
    RaisesOnly->> _ _ (RaisesOnly-raise_if (not (all_str vs)) invalid_token_error _ _ refl)
      (RaisesOnly-raise_if (not (any_in (audiences a) vs)) invalid_token_error _ _ refl))

RaisesOnly-match_audience :
    (a : Audience) (v : Value)
    → is_iterable a ≡ true
    → RaisesOnly invalid_token_error (match_audience a (audience_claims v))
RaisesOnly-match_audience a (str s) h = RaisesOnly-match_list a (cons (str s) nil) h
RaisesOnly-match_audience a (list vs) h = RaisesOnly-match_list a vs h
RaisesOnly-match_audience a null h = refl
RaisesOnly-match_audience a (bool b) h = refl
RaisesOnly-match_audience a (int n) h = refl
RaisesOnly-match_audience a (float x) h = refl
RaisesOnly-match_audience a (dict d) h = refl
RaisesOnly-match_audience a (datetime t) h = refl

RaisesOnly-check_audience :
    (payload : Dict) (a : Audience) (strict : Bool)
    → is_iterable a ≡ true
    → RaisesOnly invalid_token_error (check_audience payload a strict)
unfolding check_audience
RaisesOnly-check_audience payload a strict h =
    RaisesOnly->> _ _ (RaisesOnly-raise_if (is_absent payload) invalid_token_error _ _ refl) (
      RaisesOnly-if strict invalid_token_error _ _ (RaisesOnly-check_strict a (get payload "aud"))
        (RaisesOnly-match_audience a (get payload "aud") h))

pub RaisesOnly-validate_aud :
    (payload : Dict) (a : Audience) (strict : Bool)
    → is_iterable a ≡ true
    → RaisesOnly invalid_token_error (validate_aud payload a strict)
unfolding validate_aud
RaisesOnly-validate_aud payload unspecified strict h =
    RaisesOnly-raise_if (not (is_absent payload)) invalid_token_error _ _ refl
RaisesOnly-validate_aud payload (one s) strict h =
    RaisesOnly-check_audience payload (one s) strict h
RaisesOnly-validate_aud payload (many l) strict h =
    RaisesOnly-check_audience payload (many l) strict h
RaisesOnly-validate_aud payload not_iterable strict h = cc
