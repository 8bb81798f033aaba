-- ===== src/Algorithms/EcJwk.antt =====
-- jwt/algorithms.py: `to_jwk` with `as_dict=True`, and `from_jwk` of a dict, of `ECAlgorithm`.
use pyjwt.Prelude.{ℕ, ◌&&◌, not, Option, none, some, String, length, nat_eq, if◌then◌else◌}
use pyjwt.Errors.{Result, ok, raise, raise_if, invalid_key_error, ◌>>=◌, ◌>>◌}
use pyjwt.Value.{Value, Dict, str, empty, entry, has, get, set, eq_str}
use pyjwt.Utils.Text.{Bytes}
use pyjwt.Utils.Numbers.{from_bytes}
use pyjwt.Algorithms.{Key, object, Curve, secp256r1, secp256k1, secp384r1, secp521r1}
use pyjwt.Algorithms.Crypto.{Cryptography, KeyClass, ec_private_key, ec_public_key}
use pyjwt.Algorithms.JwkNumbers.{uint_value, bytes_at}

abbrev pub curve_name : Option Curve → Result String
curve_name (some secp256r1) = ok "P-256"
curve_name (some secp384r1) = ok "P-384"
curve_name (some secp521r1) = ok "P-521"
curve_name (some secp256k1) = ok "secp256k1"
curve_name none = raise invalid_key_error "Invalid curve"

-- len(x) == len(y) == size
abbrev sized : ℕ → Bytes → Bytes → Curve → String → Result Curve
sized size x y curve message =
    if nat_eq (length x) (length y) && nat_eq (length y) size
    then ok curve
    else raise invalid_key_error message

-- The `if curve == "P-256"` chain.
unfoldable pub curve_of_coordinates : Value → Bytes → Bytes → Result Curve
curve_of_coordinates crv x y =
    if eq_str crv "P-256"
    then sized 32 x y secp256r1 "Coords should be 32 bytes for curve P-256"
    else if eq_str crv "P-384"
    then sized 48 x y secp384r1 "Coords should be 48 bytes for curve P-384"
    else if eq_str crv "P-521"
    then sized 66 x y secp521r1 "Coords should be 66 bytes for curve P-521"
    else if eq_str crv "secp256k1"
    then sized 32 x y secp256k1 "Coords should be 32 bytes for curve secp256k1"
    else raise invalid_key_error "Invalid curve"

module _ {O : Type 0} (c : Cryptography O) where
  abbrev public_entries : O → ℕ × ℕ → Result Dict
  public_entries key (x, y) = do
    crv ← curve_name (c.curve key)
    x_value ← uint_value x (some (c.curve_key_size key))
    y_value ← uint_value y (some (c.curve_key_size key))
    ok (
        entry "kty" (str "EC")
          (entry "crv" (str crv) (entry "x" x_value (entry "y" y_value empty))))

  abbrev class_to_jwk : KeyClass → O → Result Dict
  class_to_jwk ec_private_key key = do
    obj ← public_entries key (c.ec_public_numbers (c.ec_public_key key))
    d ← uint_value (c.ec_private_value key) (some (c.curve_key_size key))
    ok (set "d" d obj)
  class_to_jwk ec_public_key key = public_entries key (c.ec_public_numbers key)
  class_to_jwk _ key = raise invalid_key_error "Not a public or private key"

  unfoldable pub ec_to_jwk : O → Result Dict
  ec_to_jwk key = class_to_jwk (c.class_of key) key

  abbrev private_key : Dict → Bytes → Bytes → Curve → Result O
  private_key obj x y curve = do
    d ← bytes_at obj "d"
    raise_if (not (nat_eq (length d) (length x))) invalid_key_error
        "D should be {} bytes for curve {}"
    c.make_ec_private_key (from_bytes d) (from_bytes x) (from_bytes y) curve

  unfoldable pub ec_from_jwk : Dict → Result (Key O)
  unfolding curve_of_coordinates
  ec_from_jwk obj = do
    raise_if (not (eq_str (get obj "kty") "EC")) invalid_key_error "Not an Elliptic curve key"
    raise_if (not (has obj "x" && has obj "y")) invalid_key_error "Not an Elliptic curve key"
    x ← bytes_at obj "x"
    y ← bytes_at obj "y"
    curve ← curve_of_coordinates (get obj "crv") x y
    key ←
        (if has obj "d"
          then private_key obj x y curve
          else c.make_ec_public_key (from_bytes x) (from_bytes y) curve)
    ok (object key)
