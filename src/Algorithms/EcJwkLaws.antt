-- ===== src/Algorithms/EcJwkLaws.antt =====
-- `to_jwk` and then `from_jwk` of `ECAlgorithm` in jwt/algorithms.py.
use pyjwt.Prelude.{
  ℕ, ◌≡◌, refl, ◌∙◌, ◌⊎◌, inl, inr, none, some, suc, String, List, [], ◌∷◌, nat_eq_refl, length,
  arith,
}
use pyjwt.Errors.{ok}
use pyjwt.Value.{Dict, str, entry, empty, lookup, set}
use pyjwt.Utils.Text.{Bytes}
use pyjwt.Utils.Numbers.{or_zero_byte}
use pyjwt.Utils.NumbersLaws.{number_bytes, from_bytes-number_bytes, length-digits}
use pyjwt.Algorithms.{object, Curve, secp256r1, secp256k1, secp384r1, secp521r1}
use pyjwt.Algorithms.Crypto.{Cryptography, ec_private_key, ec_public_key}
use pyjwt.Algorithms.CryptoLaws.{EcLaws, key_size}
use pyjwt.Algorithms.JwkNumbers.{bytes_at}
use pyjwt.Algorithms.JwkNumbers.Reading.{uint_value-decode}
use pyjwt.Algorithms.EcJwk.{ec_to_jwk, ec_from_jwk, curve_name, curve_of_coordinates}

or_zero_byte-length : (bs : List ℕ) (k : ℕ) → length bs ≡ suc k → length (or_zero_byte bs) ≡ suc k
or_zero_byte-length [] k h = absurd (omega (arith, h))
or_zero_byte-length (b ∷ bs) k h = h

-- How many bytes a coordinate has.
abbrev pub coordinate_size : Curve → ℕ
coordinate_size secp256r1 = 32
coordinate_size secp256k1 = 32
coordinate_size secp384r1 = 48
coordinate_size secp521r1 = 66

length-number_bytes :
    (n : ℕ) (curve : Curve) → length (number_bytes n (key_size curve)) ≡ coordinate_size curve
length-number_bytes n secp256r1 = or_zero_byte-length _ 31 (length-digits 32 n)
length-number_bytes n secp256k1 = or_zero_byte-length _ 31 (length-digits 32 n)
length-number_bytes n secp384r1 = or_zero_byte-length _ 47 (length-digits 48 n)
length-number_bytes n secp521r1 = or_zero_byte-length _ 65 (length-digits 66 n)

abbrev pub name : Curve → String
name secp256r1 = "P-256"
name secp256k1 = "secp256k1"
name secp384r1 = "P-384"
name secp521r1 = "P-521"

curve_name-name : (curve : Curve) → curve_name (some curve) ≡ ok (name curve)
curve_name-name secp256r1 = refl
curve_name-name secp256k1 = refl
curve_name-name secp384r1 = refl
curve_name-name secp521r1 = refl

curve_of_coordinates-name :
    (curve : Curve) (x y : Bytes)
    → length x ≡ coordinate_size curve
    → length y ≡ coordinate_size curve
    → curve_of_coordinates (str (name curve)) x y ≡ ok curve
unfolding curve_of_coordinates
curve_of_coordinates-name secp256r1 x y h k = rw (h, k)
curve_of_coordinates-name secp256k1 x y h k = rw (h, k)
curve_of_coordinates-name secp384r1 x y h k = rw (h, k)
curve_of_coordinates-name secp521r1 x y h k = rw (h, k)

-- What the JWK says of its key and its algorithm.
abbrev pub IsEcJwk : Curve → Dict → Type 0
IsEcJwk curve d =
    (lookup "kty" d ≡ some (str "EC"))
    × (lookup "crv" d ≡ some (str (name curve)))
    × (lookup "alg" d ≡ none)

-- `o'` is a key of the same class and curve with the same numbers.
module _ {O : Type 0} (c : Cryptography O) (o o' : O) (curve : Curve) where
  abbrev pub SamePublicKey : Type 0
  SamePublicKey =
      (c.class_of o ≡ ec_public_key)
      × (c.class_of o' ≡ ec_public_key)
      × (c.curve o' ≡ some curve)
      × (c.ec_public_numbers o' ≡ c.ec_public_numbers o)

  abbrev pub SamePrivateKey : Type 0
  SamePrivateKey =
      (c.class_of o ≡ ec_private_key)
      × (c.class_of o' ≡ ec_private_key)
      × (c.curve o' ≡ some curve)
      × (c.ec_private_value o' ≡ c.ec_private_value o)

module _ {O : Type 0} (c : Cryptography O) (laws : EcLaws c) (o : O) (curve : Curve)
    (on_curve : c.curve o ≡ some curve) where
  public_round_trip :
      c.class_of o ≡ ec_public_key
      → (d : Dict) × (o' : O) × (ec_to_jwk c o ≡ ok d)
        × IsEcJwk curve d
        × (ec_from_jwk c d ≡ ok (object o'))
        × SamePublicKey c o o' curve
  unfolding ec_to_jwk ec_from_jwk bytes_at lookup
  public_round_trip is_public =
      let k = key_size curve in
      let x = (c.ec_public_numbers o).0 in
      let y = (c.ec_public_numbers o).1 in
      let (fit_x, fit_y) = laws.coordinates_fit o curve is_public on_curve in
      let (x_value, made_x, read_x) = uint_value-decode x k fit_x in
      let (y_value, made_y, read_y) = uint_value-decode y k fit_y in
      let named =
        curve_of_coordinates-name curve (number_bytes x k) (number_bytes y k)
          (length-number_bytes x curve) (length-number_bytes y curve) in
      let (o', made, same_class, same_curve, same) =
        laws.public_rebuilt o curve is_public on_curve in
      (
        entry "kty" (str "EC")
            (entry "crv" (str (name curve)) (entry "x" x_value (entry "y" y_value empty))),
        o',
        rw (
          is_public,
          on_curve,
          curve_name-name curve,
          laws.sized o curve on_curve,
          made_x,
          made_y,
        ),
        (refl, refl, refl),
        rw (
          read_x,
          read_y,
          named,
          from_bytes-number_bytes x k fit_x,
          from_bytes-number_bytes y k fit_y,
          made,
        ),
        (is_public, same_class, same_curve, same),
      )

  private_round_trip :
      c.class_of o ≡ ec_private_key
      → (d : Dict) × (o' : O) × (ec_to_jwk c o ≡ ok d)
        × IsEcJwk curve d
        × (ec_from_jwk c d ≡ ok (object o'))
        × SamePrivateKey c o o' curve
  unfolding ec_to_jwk ec_from_jwk bytes_at lookup set
  private_round_trip is_private =
      let k = key_size curve in
      let public_key = c.ec_public_key o in
      let x = (c.ec_public_numbers public_key).0 in
      let y = (c.ec_public_numbers public_key).1 in
      let value = c.ec_private_value o in
      let (is_public, same_public_curve, _) = laws.has_public_key o is_private in
      let (fit_x, fit_y) =
        laws.coordinates_fit public_key curve is_public (same_public_curve ∙ on_curve) in
      let fit = laws.private_value_fits o curve is_private on_curve in
      let (x_value, made_x, read_x) = uint_value-decode x k fit_x in
      let (y_value, made_y, read_y) = uint_value-decode y k fit_y in
      let (d_value, made_d, read_d) = uint_value-decode value k fit in
      let long_x = length-number_bytes x curve in
      let long_d = length-number_bytes value curve in
      let named =
        curve_of_coordinates-name curve (number_bytes x k) (number_bytes y k) long_x
          (length-number_bytes y curve) in
      let (o', made, same_class, same_curve, same) =
        laws.private_rebuilt o curve (x, y) is_private on_curve refl in
      (
        entry "kty" (str "EC") (
            entry "crv" (str (name curve))
              (entry "x" x_value (entry "y" y_value (entry "d" d_value empty)))),
        o',
        rw (
          is_private,
          on_curve,
          curve_name-name curve,
          laws.sized o curve on_curve,
          made_x,
          made_y,
          made_d,
        ),
        (refl, refl, refl),
        rw (
          read_x,
          read_y,
          named,
          read_d,
          long_d,
          long_x,
          nat_eq_refl (coordinate_size curve),
          from_bytes-number_bytes value k fit,
          from_bytes-number_bytes x k fit_x,
          from_bytes-number_bytes y k fit_y,
          made,
        ),
        (is_private, same_class, same_curve, same),
      )

-- The JWK that `to_jwk` makes of an EC key on one of the four curves names the key type "EC" and the
-- curve and no algorithm, and is read by `from_jwk` as a key of the same class and curve, with the same
-- coordinates or the same private value; the package's numbers must fit into the size of their curve,
-- and it must rebuild a key from them.
pub ec_from_jwk-ec_to_jwk :
    {O : Type 0} (c : Cryptography O) (laws : EcLaws c) (o : O) (curve : Curve)
    → c.curve o ≡ some curve
    → (c.class_of o ≡ ec_private_key) ⊎ (c.class_of o ≡ ec_public_key)
    → (d : Dict) × (o' : O) × (ec_to_jwk c o ≡ ok d)
      × IsEcJwk curve d
      × (ec_from_jwk c d ≡ ok (object o'))
      × (SamePrivateKey c o o' curve ⊎ SamePublicKey c o o' curve)
ec_from_jwk-ec_to_jwk c laws o curve on_curve (inl is_private) =
    let (d, o', made, shape, read, same) = private_round_trip c laws o curve on_curve is_private in
    (d, o', made, shape, read, inl same)
ec_from_jwk-ec_to_jwk c laws o curve on_curve (inr is_public) =
    let (d, o', made, shape, read, same) = public_round_trip c laws o curve on_curve is_public in
    (d, o', made, shape, read, inr same)
