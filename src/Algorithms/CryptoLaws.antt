-- ===== src/Algorithms/CryptoLaws.antt =====
-- What jwt/algorithms.py relies on in the cryptography package: the documented behaviour of its keys,
-- as laws of the parameter `Cryptography`.
use pyjwt.Prelude.{ℕ, ◌^◌, ◌<◌, ◌≡◌, some}
use pyjwt.Errors.{ok}
use pyjwt.Utils.Text.{Bytes, IsBytes}
use pyjwt.Algorithms.{Hash, Curve, secp256r1, secp256k1, secp384r1, secp521r1}
use pyjwt.Algorithms.Crypto.{
  Cryptography, KeyClass, EdCurve, ed25519, ed448, Padding, rsa_private_key, rsa_public_key,
  ec_private_key, ec_public_key, ed25519_private_key, ed25519_public_key, ed448_private_key,
  ed448_public_key,
}

-- key.curve.key_size of the four curves.
abbrev pub key_size : Curve → ℕ
key_size secp256r1 = 256
key_size secp256k1 = 256
key_size secp384r1 = 384
key_size secp521r1 = 521

abbrev pub ed_public_class : EdCurve → KeyClass
ed_public_class ed25519 = ed25519_public_key
ed_public_class ed448 = ed448_public_key

abbrev pub ed_private_class : EdCurve → KeyClass
ed_private_class ed25519 = ed25519_private_key
ed_private_class ed448 = ed448_private_key

module _ {O : Type 0} (c : Cryptography O) where
  -- A key is rebuilt from its numbers.
  pub record RsaLaws : Type 0 where
    pub public_rebuilt :
        (o : O)
        → c.class_of o ≡ rsa_public_key
        → (o' : O) × (c.make_rsa_public_key (c.rsa_public_numbers o) ≡ ok o')
          × (c.class_of o' ≡ rsa_public_key)
          × (c.rsa_public_numbers o' ≡ c.rsa_public_numbers o)
    pub private_rebuilt :
        (o : O)
        → c.class_of o ≡ rsa_private_key
        → (o' : O) × (c.make_rsa_private_key (c.rsa_private_numbers o) ≡ ok o')
          × (c.class_of o' ≡ rsa_private_key)
          × (c.rsa_private_numbers o' ≡ c.rsa_private_numbers o)
    -- The key with the public numbers of a private key accepts its signatures.
    pub signs :
        (o o' : O) (msg sig : Bytes) (p : Padding) (h : Hash)
        → c.class_of o ≡ rsa_private_key
        → c.class_of o' ≡ rsa_public_key
        → c.rsa_public_numbers o' ≡ (c.rsa_private_numbers o).public_numbers
        → c.rsa_sign o msg p h ≡ ok sig
        → IsBytes sig × (c.rsa_verify o' sig msg p h ≡ ok tt)

  -- The coordinates and the private value fit into the curve's size.
  pub record EcLaws : Type 0 where
    pub sized :
        (o : O) (curve : Curve) → c.curve o ≡ some curve → c.curve_key_size o ≡ key_size curve
    pub coordinates_fit :
        (o : O) (curve : Curve)
        → c.class_of o ≡ ec_public_key
        → c.curve o ≡ some curve
        → ((c.ec_public_numbers o).0 < 2 ^ key_size curve)
          × ((c.ec_public_numbers o).1 < 2 ^ key_size curve)
    pub private_value_fits :
        (o : O) (curve : Curve)
        → c.class_of o ≡ ec_private_key
        → c.curve o ≡ some curve
        → c.ec_private_value o < 2 ^ key_size curve
    pub has_public_key :
        (o : O)
        → c.class_of o ≡ ec_private_key
        → (c.class_of (c.ec_public_key o) ≡ ec_public_key)
          × (c.curve (c.ec_public_key o) ≡ c.curve o)
          × (c.curve_key_size (c.ec_public_key o) ≡ c.curve_key_size o)
    pub public_rebuilt :
        (o : O) (curve : Curve)
        → c.class_of o ≡ ec_public_key
        → c.curve o ≡ some curve
        → (o' : O) × (c.make_ec_public_key (c.ec_public_numbers o).0 (c.ec_public_numbers o).1 curve
            ≡ ok o')
          × (c.class_of o' ≡ ec_public_key)
          × (c.curve o' ≡ some curve)
          × (c.ec_public_numbers o' ≡ c.ec_public_numbers o)
    pub private_rebuilt :
        (o : O) (curve : Curve) (numbers : ℕ × ℕ)
        → c.class_of o ≡ ec_private_key
        → c.curve o ≡ some curve
        → c.ec_public_numbers (c.ec_public_key o) ≡ numbers
        → (o' : O) × (c.make_ec_private_key (c.ec_private_value o) numbers.0 numbers.1 curve
            ≡ ok o')
          × (c.class_of o' ≡ ec_private_key)
          × (c.curve o' ≡ some curve)
          × (c.ec_private_value o' ≡ c.ec_private_value o)
    -- What a public key accepts depends on its curve and its numbers.
    pub alike :
        (o o' : O) (curve : Curve) (der msg : Bytes) (h : Hash)
        → c.class_of o ≡ ec_public_key
        → c.class_of o' ≡ ec_public_key
        → c.curve o ≡ some curve
        → c.curve o' ≡ some curve
        → c.ec_public_numbers o' ≡ c.ec_public_numbers o
        → c.ec_verify o' der msg h ≡ c.ec_verify o der msg h
    -- A signature is the DER of two numbers below the curve's order, and the public key accepts it.
    pub signs :
        (o : O) (msg : Bytes) (h : Hash) (der : Bytes)
        → c.class_of o ≡ ec_private_key
        → c.ec_sign o msg h ≡ ok der
        → (r : ℕ) × (s : ℕ) × (c.dss.decode_dss_signature der ≡ ok (r, s))
          × (c.dss.encode_dss_signature r s ≡ ok der)
          × (r < 2 ^ c.curve_key_size o)
          × (s < 2 ^ c.curve_key_size o)
          × (c.ec_verify (c.ec_public_key o) der msg h ≡ ok tt)

  -- Keys are rebuilt from their raw bytes.
  pub record EdLaws : Type 0 where
    pub public_rebuilt :
        (o : O) (curve : EdCurve)
        → c.class_of o ≡ ed_public_class curve
        → (o' : O) × (c.make_ed_public_key curve (c.ed_public_bytes o) ≡ ok o')
          × (c.class_of o' ≡ ed_public_class curve)
          × (c.ed_public_bytes o' ≡ c.ed_public_bytes o)
    pub private_rebuilt :
        (o : O) (curve : EdCurve)
        → c.class_of o ≡ ed_private_class curve
        → (o' : O) × (c.make_ed_private_key curve (c.ed_private_bytes o) ≡ ok o')
          × (c.class_of o' ≡ ed_private_class curve)
          × (c.ed_private_bytes o' ≡ c.ed_private_bytes o)
    pub are_bytes : (o : O) → IsBytes (c.ed_public_bytes o) × IsBytes (c.ed_private_bytes o)
    pub has_public_key :
        (o : O) (curve : EdCurve)
        → c.class_of o ≡ ed_private_class curve
        → c.class_of (c.ed_public_key o) ≡ ed_public_class curve
    pub signs :
        (o : O) (curve : EdCurve) (msg sig : Bytes)
        → c.class_of o ≡ ed_private_class curve
        → c.ed_sign o msg ≡ ok sig
        → IsBytes sig × (c.ed_verify (c.ed_public_key o) sig msg ≡ ok tt)

  pub record IsLawful : Type 0 where
    pub rsa : RsaLaws
    pub ec : EcLaws
    pub ed : EdLaws
