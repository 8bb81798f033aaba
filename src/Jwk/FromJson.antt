-- ===== src/Jwk/FromJson.antt =====
-- jwt/api_jwk.py: `PyJWK.from_json`, `PyJWKSet.from_json` and the iterator of `PyJWKSet`.
use pyjwt.Prelude.{Option, String, List}
use pyjwt.Errors.{Result, ◌>>=◌}
use pyjwt.Value.{Dict}
use pyjwt.Algorithms.{Backend}
use pyjwt.Algorithms.JwkText.{JsonText, need_get}
use pyjwt.Jwk
use pyjwt.Jwk.{PyJwk}
use pyjwt.Jwk.KeySet
use pyjwt.Jwk.KeySet.{PyJwkSet}

module _ {O : Type 0} (b : Backend O) where
  -- PyJWK.from_dict(obj, algorithm)
  unfoldable pub from_dict : Dict → Option String → Result (PyJwk O)
  from_dict obj algorithm = Jwk.init b obj algorithm

  -- Data that is no object has no `get`: AttributeError.
  unfoldable pub from_json : JsonText → String → Option String → Result (PyJwk O)
  unfolding from_dict
  from_json json text algorithm = do obj ← json.loads text; d ← need_get obj; from_dict d algorithm

  unfoldable pub set_from_json : JsonText → String → Result (PyJwkSet O)
  set_from_json json text = do obj ← json.loads text; d ← need_get obj; KeySet.from_dict b d

-- iter(jwk_set)
unfoldable pub iter : {O : Type 0} → PyJwkSet O → List (PyJwk O)
iter s = s.keys
