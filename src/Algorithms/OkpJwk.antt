-- ===== src/Algorithms/OkpJwk.antt =====
-- jwt/algorithms.py: `to_jwk` with `as_dict=True`, and `from_jwk` of a dict, of `OKPAlgorithm`.
use pyjwt.Prelude.{Bool, true, false, ◌&&◌, not, String, if◌then◌else◌}
use pyjwt.Errors.{
  Result, ok, raise, raise_if, except_raise, value_error, invalid_key_error, ◌>>=◌, ◌>>◌,
}
use pyjwt.Value.{Dict, str, empty, entry, has, get, eq_str}
use pyjwt.Utils.Text.{Bytes}
use pyjwt.Algorithms.{Key, object}
use pyjwt.Algorithms.Crypto.{
  Cryptography, KeyClass, EdCurve, ed25519, ed448, ed25519_private_key, ed25519_public_key,
  ed448_private_key, ed448_public_key,
}
use pyjwt.Algorithms.JwkNumbers.{bytes_value, bytes_at}

abbrev pub ed_name : EdCurve → String
ed_name ed25519 = "Ed25519"
ed_name ed448 = "Ed448"

-- The curve of a name that is known to be one of the two.
abbrev pub ed_curve : Bool → EdCurve
ed_curve true = ed25519
ed_curve false = ed448

module _ {O : Type 0} (c : Cryptography O) where
  abbrev pub public_to_jwk : EdCurve → O → Result Dict
  public_to_jwk curve key = do
    x ← bytes_value (c.ed_public_bytes key)
    ok (entry "x" x (entry "kty" (str "OKP") (entry "crv" (str (ed_name curve)) empty)))

  abbrev pub private_to_jwk : EdCurve → O → Result Dict
  private_to_jwk curve key = do
    x ← bytes_value (c.ed_public_bytes (c.ed_public_key key))
    d ← bytes_value (c.ed_private_bytes key)
    ok (
        entry "x" x
          (entry "d" d (entry "kty" (str "OKP") (entry "crv" (str (ed_name curve)) empty))))

  abbrev class_to_jwk : KeyClass → O → Result Dict
  class_to_jwk ed25519_public_key key = public_to_jwk ed25519 key
  class_to_jwk ed448_public_key key = public_to_jwk ed448 key
  class_to_jwk ed25519_private_key key = private_to_jwk ed25519 key
  class_to_jwk ed448_private_key key = private_to_jwk ed448 key
  class_to_jwk _ key = raise invalid_key_error "Not a public or private key"

  unfoldable pub okp_to_jwk : O → Result Dict
  okp_to_jwk key = class_to_jwk (c.class_of key) key

  abbrev pub private_key : Dict → EdCurve → Result O
  private_key obj curve = do d ← bytes_at obj "d"; c.make_ed_private_key curve d

  -- The body of the try statement, once `x` is decoded.
  abbrev pub make_key : Dict → EdCurve → Bytes → Result O
  make_key obj curve x = if has obj "d" then private_key obj curve else c.make_ed_public_key curve x

  unfoldable pub okp_from_jwk : Dict → Result (Key O)
  okp_from_jwk obj = do
    raise_if (not (eq_str (get obj "kty") "OKP")) invalid_key_error "Not an Octet Key Pair"
    raise_if (not (eq_str (get obj "crv") "Ed25519") && not (eq_str (get obj "crv") "Ed448"))
        invalid_key_error "Invalid curve"
    raise_if (not (has obj "x")) invalid_key_error "OKP should have \"x\" parameter"
    x ← bytes_at obj "x"
    key ←
        except_raise (make_key obj (ed_curve (eq_str (get obj "crv") "Ed25519")) x) value_error
          invalid_key_error "Invalid key parameter"
    ok (object key)
