-- ===== src/Tests/CodecTests.antt =====
-- The codecs and key checks of jwt/utils.py and jwt/algorithms.py at concrete inputs.
use pyjwt.Prelude.{ℕ, ◌+◌, ◌/◌, true, ◌≡◌, ◌↔◌, refl, inl, inr, some, [], ◌∷◌, ◌++◌, arith}
use pyjwt.Prelude.Int.{pos}
use pyjwt.Errors.{Result, ok, raise, invalid_key_error, value_error}
use pyjwt.Value.{Dict}
use pyjwt.Algorithms.JwkLaws.{hmac_from_jwk-hmac_to_jwk}
use pyjwt.Utils.Text.{force_bytes, Bytes, Text}
use pyjwt.Utils.KeyFormats.{codes}
use pyjwt.Utils.Base64.{base64url_encode, base64url_decode}
use pyjwt.Utils.Base64Laws.{base64url_decode-base64url_encode}
use pyjwt.Utils.Numbers.{digits, or_zero_byte, to_base64url_uint, from_base64url_uint}
use pyjwt.Utils.NumbersLaws.{to_base64url_uint-round_trip}
use pyjwt.Utils.Signatures.{Dss, der_to_raw_signature, raw_to_der_signature}
use pyjwt.Utils.RawSignatureLaws.{IsCodec, der_to_raw_signature-raw_to_der_signature}
use pyjwt.Algorithms.{
  hmac_to_jwk, hmac_from_jwk, secret, sha256, hmac_sign, hmac_verify, prepare_hmac_key,
  asymmetric_message,
}
use pyjwt.Algorithms.HmacLaws.{hmac_verify-hmac_sign}
use pyjwt.Algorithms.KeyLaws.{dash, space, unix, dos, pem_text, prepare_hmac_key-asymmetric}
use pyjwt.Tests.Fixtures.{digest}

abbrev two_bytes : Bytes
two_bytes = 255 ∷ 1 ∷ []

base64url_decode-base64url_encode_example :
    base64url_decode (Text.bytes (base64url_encode two_bytes)) ≡ ok two_bytes
base64url_decode-base64url_encode_example =
    base64url_decode-base64url_encode two_bytes (omega arith, (omega arith, tt))

to_base64url_uint-round_trip_example :
    (enc : Bytes) × (to_base64url_uint (pos 300) (some 9) ≡ ok enc)
    × (base64url_decode (Text.bytes enc) ≡ ok (or_zero_byte (digits ((9 + 7) / 8) 300)))
    × (from_base64url_uint (Text.bytes enc) ≡ ok 300)
to_base64url_uint-round_trip_example = to_base64url_uint-round_trip 300 9 (omega arith)

hmac_verify-hmac_sign_example :
    (hmac_verify {O = Unit {0}} digest sha256 two_bytes (secret (Text.bytes (7 ∷ []))) (1 ∷ 2 ∷ [])
      ≡ ok true)
    ↔ (hmac_sign {O = Unit {0}} digest sha256 two_bytes (secret (Text.bytes (7 ∷ [])))
        ≡ ok (1 ∷ 2 ∷ []))
hmac_verify-hmac_sign_example =
    hmac_verify-hmac_sign (Unit {0}) digest sha256 two_bytes (7 ∷ []) (1 ∷ 2 ∷ [])

-- A certificate as a text, with spaces at its END line and CRLF after its BEGIN line.
abbrev certificate : Bytes
certificate =
    pem_text (record { before = dash; after = dash; ends = dos }) unix
      (record { before = space; after = space; ends = unix }) (codes "CERTIFICATE") (b'M' ∷ []) []

certificate_bytes :
    force_bytes (Text.str (b'#' ∷ [] ++ certificate)) ≡ ok (b'#' ∷ [] ++ certificate)
unfolding force_bytes pyjwt.Utils.Text.utf8 pyjwt.Utils.Text.utf8_char
certificate_bytes = refl

prepare_hmac_key-asymmetric_example :
    prepare_hmac_key {O = Unit {0}} (secret (Text.str (b'#' ∷ [] ++ certificate)))
    ≡ raise invalid_key_error asymmetric_message
prepare_hmac_key-asymmetric_example =
    prepare_hmac_key-asymmetric (Text.str (b'#' ∷ [] ++ certificate))
      (record { before = dash; after = dash; ends = dos }) unix
      (record { before = space; after = space; ends = unix }) (b'#' ∷ []) (codes "CERTIFICATE")
      (b'M' ∷ []) [] (codes "ssh-rsa") [] (inl refl) (λ q. cc) (inr (inl refl))
      (inl certificate_bytes)

abbrev read_pair : Bytes → Result (ℕ × ℕ)
read_pair (r ∷ s ∷ []) = ok (r, s)
read_pair _ = raise value_error "Could not decode the signature"

-- A codec that writes a pair of numbers as a list of two.
abbrev pair_codec : Dss
pair_codec = record {
  decode_dss_signature = λ der. read_pair der;
  encode_dss_signature = λ r s. ok (r ∷ s ∷ []);
}

pair_codec-IsCodec : IsCodec pair_codec
pair_codec-IsCodec = record { encodes = λ r s. (r ∷ s ∷ [], refl, refl) }

der_to_raw_signature-raw_to_der_signature_example :
    (der : Bytes) × (raw_to_der_signature pair_codec (1 ∷ 2 ∷ 3 ∷ 4 ∷ []) 16 ≡ ok der)
    × (der_to_raw_signature pair_codec der 16 ≡ ok (1 ∷ 2 ∷ 3 ∷ 4 ∷ []))
der_to_raw_signature-raw_to_der_signature_example =
    der_to_raw_signature-raw_to_der_signature pair_codec (1 ∷ 2 ∷ 3 ∷ 4 ∷ []) 16 pair_codec-IsCodec
      (omega arith, (omega arith, (omega arith, (omega arith, tt)))) (omega arith) refl

two_bytes_forced : force_bytes (Text.bytes two_bytes) ≡ ok two_bytes
unfolding force_bytes
two_bytes_forced = refl

hmac_from_jwk-hmac_to_jwk_example :
    (d : Dict) × (hmac_to_jwk (Text.bytes two_bytes) ≡ ok d)
    × (hmac_from_jwk {O = Unit {0}} d ≡ ok (secret (Text.bytes two_bytes)))
hmac_from_jwk-hmac_to_jwk_example =
    hmac_from_jwk-hmac_to_jwk (Text.bytes two_bytes) two_bytes two_bytes_forced
      (omega arith, (omega arith, tt))
