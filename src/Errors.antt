-- ===== src/Errors.antt =====
-- jwt/exceptions.py and jwt/warnings.py: the exception classes with their bases, the built-in
-- exceptions that the code raises, catches or lets through, and fallible code as values.
pub mod Bind
pub mod Raising
use pyjwt.Prelude.{ℕ, String, Bool, true, false, List, [], ◌∷◌, nat_eq, if◌then◌else◌}

-- First the built-in classes, with UnsupportedAlgorithm and InvalidSignature (`signature_mismatch`) of
-- the cryptography package; the rest is exceptions.py, in its order.
pub data ErrorClass : Type 0 where
  exception type_error value_error key_error lookup_error arithmetic_error : ErrorClass
  overflow_error runtime_error not_implemented_error binascii_error unicode_error : ErrorClass
  json_decode_error attribute_error os_error unsupported_algorithm : ErrorClass
  signature_mismatch : ErrorClass
  py_jwt_error invalid_token_error decode_error invalid_signature_error : ErrorClass
  expired_signature_error invalid_audience_error invalid_issuer_error : ErrorClass
  invalid_issued_at_error immature_signature_error invalid_key_error : ErrorClass
  invalid_algorithm_error missing_required_claim_error py_jwk_error : ErrorClass
  missing_cryptography_error py_jwk_set_error py_jwk_client_error : ErrorClass
  py_jwk_client_connection_error invalid_subject_error invalid_jti_error : ErrorClass

-- A number for each class, to compare them.
abbrev class_id : ErrorClass → ℕ
class_id exception = 0
class_id type_error = 1
class_id value_error = 2
class_id key_error = 3
class_id lookup_error = 4
class_id arithmetic_error = 5
class_id overflow_error = 6
class_id runtime_error = 7
class_id not_implemented_error = 8
class_id binascii_error = 9
class_id unicode_error = 10
class_id json_decode_error = 11
class_id py_jwt_error = 12
class_id attribute_error = 31
class_id unsupported_algorithm = 32
class_id signature_mismatch = 33
class_id os_error = 34
class_id invalid_token_error = 13
class_id decode_error = 14
class_id invalid_signature_error = 15
class_id expired_signature_error = 16
class_id invalid_audience_error = 17
class_id invalid_issuer_error = 18
class_id invalid_issued_at_error = 19
class_id immature_signature_error = 20
class_id invalid_key_error = 21
class_id invalid_algorithm_error = 22
class_id missing_required_claim_error = 23
class_id py_jwk_error = 24
class_id missing_cryptography_error = 25
class_id py_jwk_set_error = 26
class_id py_jwk_client_error = 27
class_id py_jwk_client_connection_error = 28
class_id invalid_subject_error = 29
class_id invalid_jti_error = 30

abbrev jwt_mro : List ErrorClass
jwt_mro = py_jwt_error ∷ exception ∷ []

abbrev token_mro : List ErrorClass
token_mro = invalid_token_error ∷ jwt_mro

-- A class and its bases, nearest first.
abbrev pub mro : ErrorClass → List ErrorClass
mro exception = exception ∷ []
mro type_error = type_error ∷ exception ∷ []
mro value_error = value_error ∷ exception ∷ []
mro key_error = key_error ∷ lookup_error ∷ exception ∷ []
mro lookup_error = lookup_error ∷ exception ∷ []
mro arithmetic_error = arithmetic_error ∷ exception ∷ []
mro overflow_error = overflow_error ∷ arithmetic_error ∷ exception ∷ []
mro runtime_error = runtime_error ∷ exception ∷ []
mro not_implemented_error = not_implemented_error ∷ runtime_error ∷ exception ∷ []
mro binascii_error = binascii_error ∷ value_error ∷ exception ∷ []
mro unicode_error = unicode_error ∷ value_error ∷ exception ∷ []
mro json_decode_error = json_decode_error ∷ value_error ∷ exception ∷ []
mro attribute_error = attribute_error ∷ exception ∷ []
mro os_error = os_error ∷ exception ∷ []
mro unsupported_algorithm = unsupported_algorithm ∷ exception ∷ []
mro signature_mismatch = signature_mismatch ∷ exception ∷ []
mro py_jwt_error = jwt_mro
mro invalid_token_error = token_mro
mro decode_error = decode_error ∷ token_mro
mro invalid_signature_error = invalid_signature_error ∷ decode_error ∷ token_mro
mro expired_signature_error = expired_signature_error ∷ token_mro
mro invalid_audience_error = invalid_audience_error ∷ token_mro
mro invalid_issuer_error = invalid_issuer_error ∷ token_mro
mro invalid_issued_at_error = invalid_issued_at_error ∷ token_mro
mro immature_signature_error = immature_signature_error ∷ token_mro
mro invalid_key_error = invalid_key_error ∷ jwt_mro
mro invalid_algorithm_error = invalid_algorithm_error ∷ token_mro
mro missing_required_claim_error = missing_required_claim_error ∷ token_mro
mro py_jwk_error = py_jwk_error ∷ jwt_mro
mro missing_cryptography_error = missing_cryptography_error ∷ py_jwk_error ∷ jwt_mro
mro py_jwk_set_error = py_jwk_set_error ∷ jwt_mro
mro py_jwk_client_error = py_jwk_client_error ∷ jwt_mro
mro py_jwk_client_connection_error = py_jwk_client_connection_error ∷ py_jwk_client_error ∷ jwt_mro
mro invalid_subject_error = invalid_subject_error ∷ token_mro
mro invalid_jti_error = invalid_jti_error ∷ token_mro

abbrev is_class_in : ErrorClass → List ErrorClass → Bool
is_class_in c [] = false
is_class_in c (d ∷ ds) = if nat_eq (class_id c) (class_id d) then true else is_class_in c ds

-- An exception's class and its text. The parts of a text that come from a value are left out; that
-- of `MissingRequiredClaimError` is the claim.
pub record Error : Type 0 where
  pub cls : ErrorClass
  pub message : String

abbrev pub isinstance : Error → ErrorClass → Bool
isinstance e c = is_class_in c (mro e.cls)

pub data Result {μ} (X : Type μ) : Type μ where
  err : Error → Result X
  ok : X → Result X

abbrev pub raise {ℓ} : {A : Type ℓ} → ErrorClass → String → Result A
raise c m = err (record { cls = c; message = m })

infixl 5 ◌>>=◌ ◌>>◌
-- The next step gets the value of the last one; an exception skips what follows.
abbrev pub ◌>>=◌ {μ ν} : {X : Type μ} {Y : Type ν} → Result X → (X → Result Y) → Result Y
err e >>= next = err e
ok x >>= next = next x

abbrev pub ◌>>◌ {μ ν} : {X : Type μ} {Y : Type ν} → Result X → Result Y → Result Y
first >> second = first >>= λ _. second

-- `if b: raise c(m)`.
abbrev pub raise_if : Bool → ErrorClass → String → Result (Unit {0})
raise_if true c m = raise c m
raise_if false c m = ok tt

-- `except c: raise c'(m)`.
abbrev pub except_raise {ℓ} : {A : Type ℓ} → Result A → ErrorClass → ErrorClass → String → Result A
except_raise (ok a) c c' m = ok a
except_raise (err e) c c' m = if isinstance e c then raise c' m else err e

-- `except c:` with a body that does not raise at once.
abbrev pub except_try {ℓ} : {A : Type ℓ} → Result A → ErrorClass → Result A → Result A
except_try (ok a) c body = ok a
except_try (err e) c body = if isinstance e c then body else err e
