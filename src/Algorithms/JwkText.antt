-- ===== src/Algorithms/JwkText.antt =====
-- jwt/algorithms.py: `from_jwk` of a text, a dict or anything else, and `to_jwk` with
-- `as_dict=False`. The json module is a parameter.
use pyjwt.Prelude.{◌≡◌, String}
use pyjwt.Errors.{
  Result, ok, raise, except_raise, value_error, attribute_error, invalid_key_error, ◌>>=◌,
}
use pyjwt.Value.{Value, Dict, dict}
use pyjwt.Utils.Text.{Text}
use pyjwt.Algorithms.{Key, hmac_from_jwk, hmac_to_jwk}
use pyjwt.Algorithms.Crypto.{Cryptography}
use pyjwt.Algorithms.RsaJwk.{rsa_from_jwk, rsa_to_jwk}
use pyjwt.Algorithms.EcJwk.{ec_from_jwk, ec_to_jwk}
use pyjwt.Algorithms.OkpJwk.{okp_from_jwk, okp_to_jwk}

-- json.loads of a text, and json.dumps.
pub record JsonText : Type 0 where
  pub loads : String → Result Value
  pub dumps : Value → Result String

-- Union[str, JWKDict], and an object of any other type.
pub data JwkArg : Type 0 where
  text : String → JwkArg
  jwk : Dict → JwkArg
  neither : JwkArg

-- The first call on `obj` is obj.get("kty").
abbrev pub need_get : Value → Result Dict
need_get (dict d) = ok d
need_get _ = raise attribute_error "object has no attribute 'get'"

module _ (json : JsonText) where
  -- The body of the try statement.
  abbrev pub loaded : JwkArg → Result Value
  loaded (text s) = json.loads s
  loaded (jwk d) = ok (dict d)
  loaded neither = raise value_error ""

  unfoldable pub jwk_object : JwkArg → Result Dict
  jwk_object arg = do
    obj ← except_raise (loaded arg) value_error invalid_key_error "Key is not valid JSON"
    need_get obj

  abbrev pub dump : Result Dict → Result String
  dump made = do obj ← made; json.dumps (dict obj)

  unfoldable pub hmac_to_text : Text → Result String
  hmac_to_text key_obj = dump (hmac_to_jwk key_obj)

module _ {O : Type 0} (json : JsonText) where
  unfoldable pub hmac_from_any : JwkArg → Result (Key O)
  unfolding jwk_object
  hmac_from_any arg = do obj ← jwk_object json arg; hmac_from_jwk obj

module _ {O : Type 0} (c : Cryptography O) (json : JsonText) where
  unfoldable pub rsa_from_any : JwkArg → Result (Key O)
  unfolding jwk_object
  rsa_from_any arg = do obj ← jwk_object json arg; rsa_from_jwk c obj

  unfoldable pub ec_from_any : JwkArg → Result (Key O)
  unfolding jwk_object
  ec_from_any arg = do obj ← jwk_object json arg; ec_from_jwk c obj

  unfoldable pub okp_from_any : JwkArg → Result (Key O)
  unfolding jwk_object
  okp_from_any arg = do obj ← jwk_object json arg; okp_from_jwk c obj

  unfoldable pub rsa_to_text : O → Result String
  rsa_to_text key = dump json (rsa_to_jwk c key)

  unfoldable pub ec_to_text : O → Result String
  ec_to_text key = dump json (ec_to_jwk c key)

  unfoldable pub okp_to_text : O → Result String
  okp_to_text key = dump json (okp_to_jwk c key)

-- What `dumps` wrote of a JWK is read back by `loads`.
abbrev pub ReadsJwk : JsonText → Dict → Type 0
ReadsJwk json d = (s : String) → json.dumps (dict d) ≡ ok s → json.loads s ≡ ok (dict d)

-- The text of a JWK stands for its dict.
pub jwk_object-dumps :
    (json : JsonText) (d : Dict) (s : String)
    → ReadsJwk json d
    → json.dumps (dict d) ≡ ok s
    → jwk_object json (text s) ≡ ok d
unfolding jwk_object
jwk_object-dumps json d s reads written = rw (reads s written)
