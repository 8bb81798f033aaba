-- ===== src/Jws/Headers.antt =====
-- `_validate_headers`, `_validate_kid` and `_validate_crit` of jwt/api_jws.py.
use pyjwt.Prelude.{Bool, ◌&&◌, not, String, List, [], ◌∷◌, is_in, if◌then◌else◌}
use pyjwt.Errors.{Result, ok, raise, raise_if, invalid_token_error, ◌>>◌}
use pyjwt.Value.{Value, Items, Dict, str, list, nil, cons, get, has, is_str}

abbrev pub supported_crit : List String
supported_crit = "b64" ∷ []

unfoldable pub validate_kid : Value → Result (Unit {0})
validate_kid kid =
    raise_if (not (is_str kid)) invalid_token_error "Key ID header parameter must be a string"

-- The body of the loop over `crit`.
unfoldable pub validate_ext : Dict → Value → Result (Unit {0})
validate_ext headers (str ext) = do
  raise_if (not (is_in ext supported_crit)) invalid_token_error "Unsupported critical extension"
  raise_if (not (has headers ext)) invalid_token_error "Critical extension is missing from headers"
validate_ext headers _ = raise invalid_token_error "Invalid 'crit' header: values must be strings"

unfoldable pub validate_exts : Dict → Items → Result (Unit {0})
validate_exts headers nil = ok tt
validate_exts headers (cons ext exts) = do validate_ext headers ext; validate_exts headers exts

unfoldable pub validate_crit_value : Dict → Value → Result (Unit {0})
validate_crit_value headers (list (cons ext exts)) = validate_exts headers (cons ext exts)
validate_crit_value headers _ =
    raise invalid_token_error "Invalid 'crit' header: must be a non-empty list"

unfoldable pub validate_crit : Dict → Result (Unit {0})
unfolding validate_crit_value validate_exts validate_ext
validate_crit headers = validate_crit_value headers (get headers "crit")

unfoldable pub validate_headers : Dict → Bool → Result (Unit {0})
unfolding validate_kid
validate_headers headers encoding = do
  if has headers "kid" then validate_kid (get headers "kid") else ok tt
  if not encoding && has headers "crit" then validate_crit headers else ok tt
