-- ===== src/Tests/SmallKeys.antt =====
-- A small key package, on which the algorithms of jwt/algorithms.py run.
use pyjwt.Prelude.{ℕ, ◌+◌, ◌%◌, Bool, Option, none, some, List, [], ◌∷◌, nat_eq, if◌then◌else◌}
use pyjwt.Errors.{Result, ok, raise, value_error, signature_mismatch}
use pyjwt.Utils.Text.{Bytes}
use pyjwt.Utils.Numbers.{from_bytes}
use pyjwt.Utils.KeyFormats.{codes, starts_with}
use pyjwt.Algorithms.{Curve, secp256r1}
use pyjwt.Algorithms.Crypto.{
  Cryptography, KeyClass, EdCurve, RsaPublicNumbers, RsaPrivateNumbers, rsa_private_key,
  rsa_public_key, ec_private_key, ec_public_key,
}
use pyjwt.Algorithms.CryptoLaws.{key_size, ed_public_class, ed_private_class}

pub data SmallKey : Type 0 where
  rsa_private : RsaPrivateNumbers → SmallKey
  rsa_public : RsaPublicNumbers → SmallKey
  ec_private : Curve → ℕ → SmallKey
  ec_public : Curve → ℕ → ℕ → SmallKey
  ed_private : EdCurve → ℕ → SmallKey
  ed_public : EdCurve → ℕ → SmallKey

abbrev pub class_of : SmallKey → KeyClass
class_of (rsa_private numbers) = rsa_private_key
class_of (rsa_public numbers) = rsa_public_key
class_of (ec_private curve d) = ec_private_key
class_of (ec_public curve x y) = ec_public_key
class_of (ed_private curve d) = ed_private_class curve
class_of (ed_public curve x) = ed_public_class curve

abbrev pub no_numbers : RsaPublicNumbers
no_numbers = record { e = 0; n = 0 }

abbrev pub rsa_public_numbers : SmallKey → RsaPublicNumbers
rsa_public_numbers (rsa_public numbers) = numbers
rsa_public_numbers _ = no_numbers

abbrev pub rsa_private_numbers : SmallKey → RsaPrivateNumbers
rsa_private_numbers (rsa_private numbers) = numbers
rsa_private_numbers _ = record {
  p = 0;
  q = 0;
  d = 0;
  dmp1 = 0;
  dmq1 = 0;
  iqmp = 0;
  public_numbers = no_numbers;
}

abbrev pub curve_of : SmallKey → Option Curve
curve_of (ec_private curve d) = some curve
curve_of (ec_public curve x y) = some curve
curve_of _ = none

abbrev pub size_of : Option Curve → ℕ
size_of none = 0
size_of (some curve) = key_size curve

-- A number that the key and the message make.
abbrev pub sum : ℕ → Bytes → ℕ
sum k msg = (k + from_bytes msg) % 256

abbrev ec_public_key_of : SmallKey → SmallKey
ec_public_key_of (ec_private curve d) = ec_public curve d d
ec_public_key_of key = key

abbrev ec_public_numbers : SmallKey → ℕ × ℕ
ec_public_numbers (ec_public curve x y) = (x % 256, y % 256)
ec_public_numbers _ = (0, 0)

abbrev ec_private_value : SmallKey → ℕ
ec_private_value (ec_private curve d) = d % 256
ec_private_value _ = 0

abbrev ed_public_key_of : SmallKey → SmallKey
ed_public_key_of (ed_private curve d) = ed_public curve d
ed_public_key_of key = key

abbrev pub ed_bytes : SmallKey → Bytes
ed_bytes (ed_private curve d) = d % 256 ∷ []
ed_bytes (ed_public curve x) = x % 256 ∷ []
ed_bytes _ = []

abbrev pub private_number : SmallKey → ℕ
private_number (ec_private curve d) = d
private_number (ed_private curve d) = d
private_number _ = 0

abbrev pub public_number : SmallKey → ℕ
public_number (ec_public curve x y) = x
public_number (ed_public curve x) = x
public_number _ = 0

abbrev pub verified : Bool → Result (Unit {0})
verified b = if b then ok tt else raise signature_mismatch ""

abbrev pub encode : ℕ → ℕ → Result Bytes
encode r s = ok (r ∷ s ∷ [])

abbrev pub decode : Bytes → Result (ℕ × ℕ)
decode (r ∷ s ∷ []) = ok (r, s)
decode _ = raise value_error "invalid DER"

abbrev pub verified_der : SmallKey → Bytes → Bytes → Result (Unit {0})
verified_der key (r ∷ s ∷ []) msg = verified (nat_eq s (sum (public_number key) msg))
verified_der key _ msg = raise signature_mismatch ""

abbrev pub verified_sum : ℕ → Bytes → Bytes → Result (Unit {0})
verified_sum k (s ∷ []) msg = verified (nat_eq s (sum k msg))
verified_sum k _ msg = raise signature_mismatch ""

abbrev ed_key : (ℕ → SmallKey) → Bytes → Result SmallKey
ed_key make (b ∷ []) = ok (make b)
ed_key make _ = raise value_error "wrong length"

abbrev pub small_key : SmallKey
small_key = ec_private secp256r1 5

abbrev load : List ℕ → SmallKey → Bytes → Result SmallKey
load start key bs = if starts_with bs start then ok key else raise value_error "no such key"

abbrev pub small : Cryptography SmallKey
small = record {
  class_of = class_of;
  load_pem_private_key = load (codes "-----BEGIN PRIVATE") small_key;
  load_pem_public_key = load (codes "-----BEGIN PUBLIC") (ec_public_key_of small_key);
  load_ssh_public_key = load (codes "ecdsa") (ec_public_key_of small_key);
  rsa_key_size = λ key. 2048;
  rsa_public_numbers = rsa_public_numbers;
  rsa_private_numbers = rsa_private_numbers;
  rsa_sign = λ key msg p h. ok (sum (rsa_private_numbers key).public_numbers.n msg ∷ []);
  rsa_verify = λ key sig msg p h. verified_sum (rsa_public_numbers key).n sig msg;
  make_rsa_public_key = λ numbers. ok (rsa_public numbers);
  make_rsa_private_key = λ numbers. ok (rsa_private numbers);
  rsa_recover_prime_factors = λ n d e. raise value_error "Unable to compute factors";
  rsa_crt_dmp1 = λ d p. ok d;
  rsa_crt_dmq1 = λ d q. ok d;
  rsa_crt_iqmp = λ p q. ok p;
  curve = curve_of;
  curve_key_size = λ key. size_of (curve_of key);
  ec_public_key = ec_public_key_of;
  ec_public_numbers = ec_public_numbers;
  ec_private_value = ec_private_value;
  ec_sign = λ key msg h. encode 1 (sum (private_number key) msg);
  ec_verify = λ key der msg h. verified_der key der msg;
  make_ec_public_key = λ x y curve. ok (ec_public curve x y);
  make_ec_private_key = λ d x y curve. ok (ec_private curve d);
  dss = record { decode_dss_signature = decode; encode_dss_signature = encode };
  ed_public_key = ed_public_key_of;
  ed_sign = λ key msg. ok (sum (private_number key) msg ∷ []);
  ed_verify = λ key sig msg. verified_sum (public_number key) sig msg;
  ed_public_bytes = ed_bytes;
  ed_private_bytes = ed_bytes;
  make_ed_public_key = λ curve bs. ed_key (ed_public curve) bs;
  make_ed_private_key = λ curve bs. ed_key (ed_private curve) bs;
}
