-- ===== src/Tests/KeyPairTests.antt =====
-- Key pairs and JSON Web Keys of the small key package.
use mathlib.Core.Path.{subst}
use pyjwt.Prelude.{
  ◌*◌, true, false, ◌≡◌, refl, sym, ap, ◌∙◌, String, ◌⊎◌, inl, inr, none, some, [], ◌∷◌, length,
  arith,
}
use pyjwt.Errors.{ok}
use pyjwt.Errors.Bind.{ok-injective}
use pyjwt.Value.{Dict, empty, entry, str, dict}
use pyjwt.Value.DictLaws.{SameEntries}
use pyjwt.Utils.Text
use pyjwt.Utils.Text.{Bytes, IsBytes}
use pyjwt.Utils.Signatures.{coordinate_bytes}
use pyjwt.Algorithms.{object, sha256, secp256r1}
use pyjwt.Algorithms.Crypto.{ed25519}
use pyjwt.Algorithms.CryptoLaws.{key_size}
use pyjwt.Algorithms.Backends.{with_cryptography}
use pyjwt.Algorithms.RsaJwk.{rsa_to_jwk, rsa_from_jwk}
use pyjwt.Algorithms.RsaJwkLaws as Rsa
use pyjwt.Algorithms.RsaJwkLaws.{rsa_from_jwk-rsa_to_jwk}
use pyjwt.Algorithms.Ec.{ec_algorithm, ec_sign, ec_verify}
use pyjwt.Algorithms.EcJwk.{ec_to_jwk, ec_from_jwk}
use pyjwt.Algorithms.EcJwkLaws as Ec
use pyjwt.Algorithms.EcJwkLaws.{ec_from_jwk-ec_to_jwk}
use pyjwt.Algorithms.EcSigning.{ec_verify-ec_sign}
use pyjwt.Algorithms.OkpJwk.{okp_to_jwk, okp_from_jwk}
use pyjwt.Algorithms.OkpJwkLaws as Okp
use pyjwt.Algorithms.OkpJwkLaws.{okp_from_jwk-okp_to_jwk}
use pyjwt.Algorithms.JwkText.{JsonText, ec_to_text}
use pyjwt.Jwk.{PyJwk}
use pyjwt.Jwk.FromJson.{from_json}
use pyjwt.Jwk.EcKeys.{from_json-ec_to_text}
use pyjwt.Jws.State.{get_algorithm_by_name}
use pyjwt.Jws.Verify.{plain, Decoded, check_key_length, decode_complete}
use pyjwt.Jws.Encode.{Encoded, named, make_header, encode}
use pyjwt.Jws.Matching.{ReadsBack}
use pyjwt.Jws.KeyRoundTrip.{ec_pair, decode_complete-encode_pair}
use pyjwt.Tests.Fixtures.{digest}
use pyjwt.Tests.SmallKeys.{SmallKey, small, small_key}
use pyjwt.Tests.SmallKeyLaws.{small-IsLawful}
use pyjwt.Tests.KeyFixtures.{
  key_header, key_codec, key_jws, rsa_private_key, ec_public_key, ed_private_key, ec_token,
}
use pyjwt.Tests.KeyTests.{key_verifies}

rsa_from_jwk-rsa_to_jwk_example :
    (d : Dict) × (o' : SmallKey) × (rsa_to_jwk small rsa_private_key ≡ ok d)
    × (rsa_from_jwk small d ≡ ok (object o'))
    × (Rsa.SamePrivateKey small rsa_private_key o' ⊎ Rsa.SamePublicKey small rsa_private_key o')
rsa_from_jwk-rsa_to_jwk_example =
    rsa_from_jwk-rsa_to_jwk small small-IsLawful.rsa rsa_private_key (inl refl)

ec_from_jwk-ec_to_jwk_example :
    (d : Dict) × (o' : SmallKey) × (ec_to_jwk small ec_public_key ≡ ok d)
    × Ec.IsEcJwk secp256r1 d
    × (ec_from_jwk small d ≡ ok (object o'))
    × (Ec.SamePrivateKey small ec_public_key o' secp256r1
        ⊎ Ec.SamePublicKey small ec_public_key o' secp256r1)
ec_from_jwk-ec_to_jwk_example =
    ec_from_jwk-ec_to_jwk small small-IsLawful.ec ec_public_key secp256r1 refl (inr refl)

okp_from_jwk-okp_to_jwk_example :
    (d : Dict) × (o' : SmallKey) × (okp_to_jwk small ed_private_key ≡ ok d)
    × (okp_from_jwk small d ≡ ok (object o'))
    × (Okp.SamePrivateKey small ed_private_key o' ed25519
        ⊎ Okp.SamePublicKey small ed_private_key o' ed25519)
okp_from_jwk-okp_to_jwk_example =
    okp_from_jwk-okp_to_jwk small small-IsLawful.ed ed_private_key ed25519 (inl refl)

abbrev pub coordinate : String
coordinate = "AAAAAAAAAAAAAAAAAAAAAAAAAAAAAAAAAAAAAAAAAAU"

-- The JWK of the key, and its text.
abbrev small_jwk : Dict
small_jwk = entry "kty" (str "EC") (
    entry "crv" (str "P-256")
      (entry "x" (str coordinate) (entry "y" (str coordinate) (entry "d" (str coordinate) empty))))

abbrev small_json : JsonText
small_json = record { loads = λ text. ok (dict small_jwk); dumps = λ v. ok "jwk" }

made_jwk : ec_to_jwk small small_key ≡ ok small_jwk
unfolding pyjwt.Algorithms.EcJwk.ec_to_jwk pyjwt.Algorithms.JwkNumbers.uint_value
    pyjwt.Utils.Ascii.decode_ascii pyjwt.Utils.Numbers.to_base64url_uint
    pyjwt.Utils.Numbers.bytes_from_int pyjwt.Utils.Numbers.to_bytes pyjwt.Utils.Numbers.digits
    pyjwt.Utils.Numbers.value_from pyjwt.Jws.Encode.encode pyjwt.Jws.Encode.sign_segments
    pyjwt.Jws.Encode.make_header pyjwt.Value.set pyjwt.Value.update pyjwt.Value.remove
    pyjwt.Utils.Base64.base64url_encode pyjwt.Utils.Base64.b2a_base64
    pyjwt.Utils.Base64.strip_padding pyjwt.Utils.Base64.to_urlsafe pyjwt.Utils.Base64.encode_sextet
made_jwk = refl

from_json-ec_to_text_example :
    (k : PyJwk SmallKey) × (o' : SmallKey) × (from_json
        (with_cryptography small digest)
        small_json
        "jwk"
        none
      ≡ ok k)
    × (k.algorithm_name ≡ "ES256")
    × (k.algorithm ≡ ec_algorithm small sha256 secp256r1)
    × (k.key ≡ object o')
    × (Ec.SamePrivateKey small small_key o' secp256r1
        ⊎ Ec.SamePublicKey small small_key o' secp256r1)
unfolding ec_to_text
from_json-ec_to_text_example =
    from_json-ec_to_text small digest small-IsLawful.ec small_json small_key secp256r1 "jwk" refl
      (inl refl) (rw made_jwk)
      (λ d made text written. ap (λ (x : Dict). ok (dict x)) (ok-injective (sym made_jwk ∙ made)))

abbrev message : Bytes
message = b'm' ∷ []

-- The numbers 1 and 114, in 32 bytes each.
abbrev message_signature : Bytes
message_signature =
    0 ∷ 0 ∷ 0 ∷ 0 ∷ 0 ∷ 0 ∷ 0 ∷ 0 ∷ 0 ∷ 0 ∷ 0 ∷ 0 ∷ 0 ∷ 0 ∷ 0 ∷ 0 ∷ 0 ∷ 0 ∷ 0 ∷ 0 ∷ 0 ∷ 0 ∷ 0 ∷ 0
    ∷ 0 ∷ 0 ∷ 0 ∷ 0 ∷ 0 ∷ 0 ∷ 0 ∷ 1 ∷ 0 ∷ 0 ∷ 0 ∷ 0 ∷ 0 ∷ 0 ∷ 0 ∷ 0 ∷ 0 ∷ 0 ∷ 0 ∷ 0 ∷ 0 ∷ 0 ∷ 0 ∷ 0
    ∷ 0 ∷ 0 ∷ 0 ∷ 0 ∷ 0 ∷ 0 ∷ 0 ∷ 0 ∷ 0 ∷ 0 ∷ 0 ∷ 0 ∷ 0 ∷ 0 ∷ 0 ∷ 114 ∷ []

message_signed : ec_sign small sha256 message (object small_key) ≡ ok message_signature
unfolding pyjwt.Algorithms.Rsa.load_rsa_key pyjwt.Algorithms.Rsa.prepare_rsa_key
    pyjwt.Algorithms.Rsa.check_rsa_key_length pyjwt.Algorithms.Rsa.rsa_sign
    pyjwt.Algorithms.Rsa.rsa_verify pyjwt.Algorithms.Ec.validate_curve
    pyjwt.Algorithms.Ec.load_ec_key pyjwt.Algorithms.Ec.prepare_ec_key pyjwt.Algorithms.Ec.ec_sign
    pyjwt.Algorithms.Ec.ec_verify pyjwt.Algorithms.Okp.prepare_okp_key pyjwt.Algorithms.Okp.okp_sign
    pyjwt.Algorithms.Okp.okp_verify pyjwt.Algorithms.Crypto.check_crypto_key_type
    pyjwt.Algorithms.Crypto.load_checked pyjwt.Utils.Signatures.raw_to_der_signature
    pyjwt.Utils.Signatures.der_to_raw_signature pyjwt.Utils.Signatures.number_to_bytes
    pyjwt.Utils.Signatures.bytes_to_number pyjwt.Utils.Signatures.padded_hex
    pyjwt.Utils.Signatures.hex_digits pyjwt.Utils.Signatures.a2b_hex pyjwt.Utils.Numbers.value_from
    pyjwt.Utils.Numbers.bit_length_from pyjwt.Utils.Numbers.digits
message_signed = refl

ec_verify-ec_sign_example :
    (length message_signature ≡ 2 * coordinate_bytes (key_size secp256r1))
    × IsBytes message_signature
    × (ec_verify small sha256 message (object small_key) message_signature ≡ ok true)
    × (ec_verify small sha256 message (object ec_public_key) message_signature ≡ ok true)
ec_verify-ec_sign_example =
    ec_verify-ec_sign small sha256 message small-IsLawful.ec small_key secp256r1 message_signature
      refl refl message_signed

pub es256_named :
    get_algorithm_by_name true key_jws "ES256" ≡ ok (ec_algorithm small sha256 secp256r1)
unfolding pyjwt.Jws.State.init pyjwt.Jws.State.merge_sig_options pyjwt.Jws.State.keep_valid
    pyjwt.Jws.State.get_algorithm_by_name pyjwt.Prelude.Assoc.find
    pyjwt.Algorithms.get_default_algorithms
es256_named = refl

no_length :
    check_key_length key_jws (ec_algorithm small sha256 secp256r1) (object ec_public_key) ≡ ok []
unfolding pyjwt.Jws.State.init pyjwt.Jws.State.merge_sig_options pyjwt.Jws.State.keep_valid
    pyjwt.Jws.State.get_algorithm_by_name pyjwt.Prelude.Assoc.find
    pyjwt.Algorithms.get_default_algorithms pyjwt.Jws.Verify.decode_complete
    pyjwt.Jws.Verify.decode_loaded pyjwt.Jws.Verify.verify_signature pyjwt.Jws.Verify.choose
    pyjwt.Jws.Verify.algorithm_of_value pyjwt.Jws.Verify.check_key_length pyjwt.Jws.Verify.attach
    pyjwt.Jws.Headers.validate_headers pyjwt.Jws.Headers.validate_kid pyjwt.Value.lookup
    pyjwt.Algorithms.hmac_verify pyjwt.Algorithms.hmac_sign pyjwt.Algorithms.compare_digest
    pyjwt.Algorithms.check_hmac_key_length pyjwt.Algorithms.prepare_hmac_key
no_length = refl

pub reads_header :
    ReadsBack (key_codec "ES256") (make_header (str "ES256") empty false) (key_header "ES256") false
unfolding pyjwt.Jws.Encode.encode pyjwt.Jws.Encode.sign_segments pyjwt.Jws.Encode.make_header
    pyjwt.Value.set pyjwt.Value.update pyjwt.Value.remove pyjwt.Utils.Base64.base64url_encode
    pyjwt.Utils.Base64.b2a_base64 pyjwt.Utils.Base64.strip_padding pyjwt.Utils.Base64.to_urlsafe
    pyjwt.Utils.Base64.encode_sextet pyjwt.Jws.Load.load pyjwt.Jws.Load.token_bytes
    pyjwt.Jws.Load.split_dot pyjwt.Jws.Load.rsplit_dot pyjwt.Utils.Text.force_bytes
    pyjwt.Utils.Base64.base64url_decode pyjwt.Utils.Base64.urlsafe_b64decode
    pyjwt.Utils.Base64.add_padding pyjwt.Utils.Base64.a2b_base64 pyjwt.Utils.Base64.step
    pyjwt.Utils.Base64.feed pyjwt.Utils.Base64.pad pyjwt.Utils.Base64.finish
    pyjwt.Utils.Base64.from_urlsafe pyjwt.Utils.Base64.decode_sextet
    pyjwt.Jws.Verify.decode_complete pyjwt.Jws.Verify.decode_loaded
    pyjwt.Jws.Verify.verify_signature pyjwt.Jws.Verify.choose pyjwt.Jws.Verify.algorithm_of_value
    pyjwt.Jws.Verify.check_key_length pyjwt.Jws.Verify.attach pyjwt.Jws.Headers.validate_headers
    pyjwt.Jws.Headers.validate_kid pyjwt.Value.lookup pyjwt.Algorithms.hmac_verify
    pyjwt.Algorithms.hmac_sign pyjwt.Algorithms.compare_digest
    pyjwt.Algorithms.check_hmac_key_length pyjwt.Algorithms.prepare_hmac_key
reads_header = record {
  same = λ k. refl;
  are_bytes = λ bs h. subst IsBytes (ok-injective h) (omega arith, tt);
  reads = λ bs h. refl;
}

pub pair_encodes :
    encode true
      (key_codec "ES256")
      key_jws
      (b'p' ∷ [])
      (plain (object small_key))
      (named "ES256")
      (some empty)
      false
      false
    ≡ ok (record { token = ec_token; warnings = [] })
unfolding pyjwt.Jws.State.init pyjwt.Jws.State.merge_sig_options pyjwt.Jws.State.keep_valid
    pyjwt.Jws.State.get_algorithm_by_name pyjwt.Prelude.Assoc.find
    pyjwt.Algorithms.get_default_algorithms pyjwt.Jws.Load.load pyjwt.Jws.Load.token_bytes
    pyjwt.Jws.Load.split_dot pyjwt.Jws.Load.rsplit_dot pyjwt.Utils.Text.force_bytes
    pyjwt.Utils.Base64.base64url_decode pyjwt.Utils.Base64.urlsafe_b64decode
    pyjwt.Utils.Base64.add_padding pyjwt.Utils.Base64.a2b_base64 pyjwt.Utils.Base64.step
    pyjwt.Utils.Base64.feed pyjwt.Utils.Base64.pad pyjwt.Utils.Base64.finish
    pyjwt.Utils.Base64.from_urlsafe pyjwt.Utils.Base64.decode_sextet
    pyjwt.Jws.Verify.decode_complete pyjwt.Jws.Verify.decode_loaded
    pyjwt.Jws.Verify.verify_signature pyjwt.Jws.Verify.choose pyjwt.Jws.Verify.algorithm_of_value
    pyjwt.Jws.Verify.check_key_length pyjwt.Jws.Verify.attach pyjwt.Jws.Headers.validate_headers
    pyjwt.Jws.Headers.validate_kid pyjwt.Value.lookup pyjwt.Algorithms.hmac_verify
    pyjwt.Algorithms.hmac_sign pyjwt.Algorithms.compare_digest
    pyjwt.Algorithms.check_hmac_key_length pyjwt.Algorithms.prepare_hmac_key
    pyjwt.Algorithms.Rsa.load_rsa_key pyjwt.Algorithms.Rsa.prepare_rsa_key
    pyjwt.Algorithms.Rsa.check_rsa_key_length pyjwt.Algorithms.Rsa.rsa_sign
    pyjwt.Algorithms.Rsa.rsa_verify pyjwt.Algorithms.Ec.validate_curve
    pyjwt.Algorithms.Ec.load_ec_key pyjwt.Algorithms.Ec.prepare_ec_key pyjwt.Algorithms.Ec.ec_sign
    pyjwt.Algorithms.Ec.ec_verify pyjwt.Algorithms.Okp.prepare_okp_key pyjwt.Algorithms.Okp.okp_sign
    pyjwt.Algorithms.Okp.okp_verify pyjwt.Algorithms.Crypto.check_crypto_key_type
    pyjwt.Algorithms.Crypto.load_checked pyjwt.Utils.Signatures.raw_to_der_signature
    pyjwt.Utils.Signatures.der_to_raw_signature pyjwt.Utils.Signatures.number_to_bytes
    pyjwt.Utils.Signatures.bytes_to_number pyjwt.Utils.Signatures.padded_hex
    pyjwt.Utils.Signatures.hex_digits pyjwt.Utils.Signatures.a2b_hex pyjwt.Utils.Numbers.value_from
    pyjwt.Utils.Numbers.bit_length_from pyjwt.Utils.Numbers.digits pyjwt.Jws.Encode.encode
    pyjwt.Jws.Encode.sign_segments pyjwt.Jws.Encode.make_header pyjwt.Value.set pyjwt.Value.update
    pyjwt.Value.remove pyjwt.Utils.Base64.base64url_encode pyjwt.Utils.Base64.b2a_base64
    pyjwt.Utils.Base64.strip_padding pyjwt.Utils.Base64.to_urlsafe pyjwt.Utils.Base64.encode_sextet
pair_encodes = refl

decode_complete-encode_pair_example :
    (d : Decoded) × (decode_complete true
        (key_codec "ES256")
        key_jws
        (Text.bytes ec_token)
        (plain (object ec_public_key))
        (some ("ES256" ∷ []))
        none
        none
      ≡ ok d)
    × (d.payload ≡ (b'p' ∷ []))
    × SameEntries d.header (make_header (str "ES256") empty false)
    × (d.warnings ≡ [])
unfolding pyjwt.Value.lookup
decode_complete-encode_pair_example =
    decode_complete-encode_pair small small-IsLawful true (key_codec "ES256") key_jws (b'p' ∷ [])
      empty (key_header "ES256") "ES256" false small_key ec_public_key
      (record { token = ec_token; warnings = [] }) ("ES256" ∷ []) none
      (ec_algorithm small sha256 secp256r1) [] (ec_pair sha256 secp256r1 small_key refl refl)
      es256_named no_length tt refl refl refl refl refl (omega arith, tt) reads_header key_verifies
      pair_encodes
