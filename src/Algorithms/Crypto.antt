-- ===== src/Algorithms/Crypto.antt =====
-- The cryptography package, as jwt/algorithms.py uses it: a parameter. `O` is the type of its key
-- objects, of any class.
use pyjwt.Prelude.{ℕ, Bool, true, false, ◌||◌, Option, some, List, [], ◌∷◌, nat_eq, if◌then◌else◌}
use pyjwt.Errors.{
  Result, ok, err, raise, isinstance, value_error, type_error, attribute_error, invalid_key_error,
  signature_mismatch, ◌>>=◌, ◌>>◌,
}
use pyjwt.Utils.Text.{Bytes}
use pyjwt.Utils.Signatures.{Dss}
use pyjwt.Algorithms.{Hash, Curve}

pub data KeyClass : Type 0 where
  rsa_private_key rsa_public_key ec_private_key ec_public_key : KeyClass
  ed25519_private_key ed25519_public_key ed448_private_key ed448_public_key : KeyClass
  other_class : KeyClass

pub data EdCurve : Type 0 where
  ed25519 ed448 : EdCurve

-- padding.PKCS1v15() and padding.PSS(mgf=padding.MGF1(…), salt_length=…)
pub data Padding : Type 0 where
  pkcs1v15 : Padding
  pss : Hash → ℕ → Padding

pub record RsaPublicNumbers : Type 0 where
  pub e : ℕ
  pub n : ℕ

pub record RsaPrivateNumbers : Type 0 where
  pub p : ℕ
  pub q : ℕ
  pub d : ℕ
  pub dmp1 : ℕ
  pub dmq1 : ℕ
  pub iqmp : ℕ
  pub public_numbers : RsaPublicNumbers

-- A method is called only on an object of a class that has it. `curve` is the class of `key.curve`, if
-- it is one of the four that the code names, and `curve_key_size` is `key.curve.key_size`.
pub record Cryptography (O : Type 0) : Type 0 where
  pub class_of : O → KeyClass
  pub load_pem_private_key : Bytes → Result O
  pub load_pem_public_key : Bytes → Result O
  pub load_ssh_public_key : Bytes → Result O
  pub rsa_key_size : O → ℕ
  pub rsa_public_numbers : O → RsaPublicNumbers
  pub rsa_private_numbers : O → RsaPrivateNumbers
  pub rsa_sign : O → Bytes → Padding → Hash → Result Bytes
  pub rsa_verify : O → Bytes → Bytes → Padding → Hash → Result (Unit {0})
  pub make_rsa_public_key : RsaPublicNumbers → Result O
  pub make_rsa_private_key : RsaPrivateNumbers → Result O
  pub rsa_recover_prime_factors : ℕ → ℕ → ℕ → Result (ℕ × ℕ)
  pub rsa_crt_dmp1 : ℕ → ℕ → Result ℕ
  pub rsa_crt_dmq1 : ℕ → ℕ → Result ℕ
  pub rsa_crt_iqmp : ℕ → ℕ → Result ℕ
  pub curve : O → Option Curve
  pub curve_key_size : O → ℕ
  pub ec_public_key : O → O
  pub ec_public_numbers : O → ℕ × ℕ
  pub ec_private_value : O → ℕ
  pub ec_sign : O → Bytes → Hash → Result Bytes
  pub ec_verify : O → Bytes → Bytes → Hash → Result (Unit {0})
  pub make_ec_public_key : ℕ → ℕ → Curve → Result O
  pub make_ec_private_key : ℕ → ℕ → ℕ → Curve → Result O
  pub dss : Dss
  pub ed_public_key : O → O
  pub ed_sign : O → Bytes → Result Bytes
  pub ed_verify : O → Bytes → Bytes → Result (Unit {0})
  pub ed_public_bytes : O → Bytes
  pub ed_private_bytes : O → Bytes
  pub make_ed_public_key : EdCurve → Bytes → Result O
  pub make_ed_private_key : EdCurve → Bytes → Result O

abbrev class_number : KeyClass → ℕ
class_number rsa_private_key = 0
class_number rsa_public_key = 1
class_number ec_private_key = 2
class_number ec_public_key = 3
class_number ed25519_private_key = 4
class_number ed25519_public_key = 5
class_number ed448_private_key = 6
class_number ed448_public_key = 7
class_number other_class = 8

-- isinstance(key, classes)
abbrev pub is_one_of : KeyClass → List KeyClass → Bool
is_one_of c [] = false
is_one_of c (d ∷ ds) = nat_eq (class_number c) (class_number d) || is_one_of c ds

-- `Algorithm.check_crypto_key_type`; the first two arguments are `has_crypto` and
-- `_crypto_key_types`.
unfoldable pub check_crypto_key_type : Bool → Option (List KeyClass) → KeyClass → Result (Unit {0})
check_crypto_key_type false types c =
    raise value_error "This method requires the cryptography library"
check_crypto_key_type true Option.none c =
    raise value_error "This method requires the cryptography library"
check_crypto_key_type true (some types) c =
    if is_one_of c types then ok tt else raise invalid_key_error "Invalid Key type"

module _ {O : Type 0} (c : Cryptography O) where
  -- A loader, then `check_crypto_key_type`.
  unfoldable pub load_checked : List KeyClass → Result O → Result O
  unfolding check_crypto_key_type
  load_checked types loaded = do
    key ← loaded
    check_crypto_key_type true (some types) (c.class_of key)
    ok key

-- Signing or verifying with an object of another class than the call is meant for: a private key of
-- that class has `sign` with other arguments, and a public key has no `sign`; `verify` is the other
-- way round. An object of `other_class` is taken to have neither method.
abbrev pub no_sign {ℓ} : {A : Type ℓ} → KeyClass → Result A
no_sign rsa_private_key = raise type_error "sign"
no_sign ec_private_key = raise type_error "sign"
no_sign ed25519_private_key = raise type_error "sign"
no_sign ed448_private_key = raise type_error "sign"
no_sign _ = raise attribute_error "sign"

abbrev pub no_verify {ℓ} : {A : Type ℓ} → KeyClass → Result A
no_verify rsa_public_key = raise type_error "verify"
no_verify ec_public_key = raise type_error "verify"
no_verify ed25519_public_key = raise type_error "verify"
no_verify ed448_public_key = raise type_error "verify"
no_verify _ = raise attribute_error "verify"

-- try: verify(...); return True; except InvalidSignature: return False
abbrev pub accepted : Result (Unit {0}) → Result Bool
accepted (ok u) = ok true
accepted (err e) = if isinstance e signature_mismatch then ok false else err e
