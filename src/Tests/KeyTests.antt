-- ===== src/Tests/KeyTests.antt =====
-- Decoding under keys of the small key package.
use pyjwt.Prelude.{true, ◌≡◌, refl, none, some, [], ◌∷◌}
use pyjwt.Prelude.Assoc.{find}
use pyjwt.Errors.{ok}
use pyjwt.Value.{lookup, str}
use pyjwt.Utils.Text
use pyjwt.Algorithms.{object, sha256, secp256r1}
use pyjwt.Algorithms.Crypto.{pkcs1v15}
use pyjwt.Algorithms.Rsa.{rsa_with}
use pyjwt.Algorithms.Ec.{ec_algorithm}
use pyjwt.Algorithms.Okp.{okp_algorithm}
use pyjwt.Jws.State
use pyjwt.Jws.Verify.{plain, decode_complete}
use pyjwt.Jws.KeySecurity.{
  IsRsaAuthentic, IsEcAuthentic, IsEdAuthentic, decode_complete-rsa, decode_complete-ec,
  decode_complete-okp,
}
use pyjwt.Tests.SmallKeys.{small}
use pyjwt.Tests.KeyFixtures.{
  key_codec, key_jws, rsa_public_key, ec_public_key, ed_public_key, rsa_token, ec_token, ed_token,
  key_message, ec_signature,
}

pub key_verifies : (State.merge_sig_options key_jws.options none).verify_signature ≡ true
unfolding pyjwt.Jws.State.init pyjwt.Jws.State.merge_sig_options pyjwt.Jws.State.keep_valid
    pyjwt.Jws.State.get_algorithm_by_name pyjwt.Prelude.Assoc.find
    pyjwt.Algorithms.get_default_algorithms
key_verifies = refl

rs256_found : find "RS256" key_jws.algorithms ≡ some (rsa_with small pkcs1v15 sha256)
unfolding pyjwt.Jws.State.init pyjwt.Jws.State.merge_sig_options pyjwt.Jws.State.keep_valid
    pyjwt.Jws.State.get_algorithm_by_name pyjwt.Prelude.Assoc.find
    pyjwt.Algorithms.get_default_algorithms
rs256_found = refl

es256_found : find "ES256" key_jws.algorithms ≡ some (ec_algorithm small sha256 secp256r1)
unfolding pyjwt.Jws.State.init pyjwt.Jws.State.merge_sig_options pyjwt.Jws.State.keep_valid
    pyjwt.Jws.State.get_algorithm_by_name pyjwt.Prelude.Assoc.find
    pyjwt.Algorithms.get_default_algorithms
es256_found = refl

eddsa_found : find "EdDSA" key_jws.algorithms ≡ some (okp_algorithm small)
unfolding pyjwt.Jws.State.init pyjwt.Jws.State.merge_sig_options pyjwt.Jws.State.keep_valid
    pyjwt.Jws.State.get_algorithm_by_name pyjwt.Prelude.Assoc.find
    pyjwt.Algorithms.get_default_algorithms
eddsa_found = refl

rsa_decodes :
    decode_complete true
      (key_codec "RS256")
      key_jws
      (Text.bytes rsa_token)
      (plain (object rsa_public_key))
      (some ("RS256" ∷ []))
      none
      none
    ≡ ok (key_message "RS256" (72 ∷ []))
unfolding pyjwt.Jws.State.init pyjwt.Jws.State.merge_sig_options pyjwt.Jws.State.keep_valid
    pyjwt.Jws.State.get_algorithm_by_name pyjwt.Prelude.Assoc.find
    pyjwt.Algorithms.get_default_algorithms pyjwt.Jws.Load.load pyjwt.Jws.Load.token_bytes
    pyjwt.Jws.Load.split_dot pyjwt.Jws.Load.rsplit_dot pyjwt.Utils.Text.force_bytes
    pyjwt.Utils.Base64.base64url_decode pyjwt.Utils.Base64.urlsafe_b64decode
    pyjwt.Utils.Base64.add_padding pyjwt.Utils.Base64.a2b_base64 pyjwt.Utils.Base64.step
    pyjwt.Utils.Base64.feed pyjwt.Utils.Base64.pad pyjwt.Utils.Base64.finish
    pyjwt.Utils.Base64.from_urlsafe pyjwt.Utils.Base64.decode_sextet
    pyjwt.Jws.Verify.decode_complete pyjwt.Jws.Verify.decode_loaded
    pyjwt.Jws.Verify.verify_signature pyjwt.Jws.Verify.choose pyjwt.Jws.Verify.algorithm_of_value
    pyjwt.Jws.Verify.check_key_length pyjwt.Jws.Verify.attach pyjwt.Jws.Headers.validate_headers
    pyjwt.Jws.Headers.validate_kid pyjwt.Value.lookup pyjwt.Algorithms.hmac_verify
    pyjwt.Algorithms.hmac_sign pyjwt.Algorithms.compare_digest
    pyjwt.Algorithms.check_hmac_key_length pyjwt.Algorithms.prepare_hmac_key
    pyjwt.Algorithms.Rsa.load_rsa_key pyjwt.Algorithms.Rsa.prepare_rsa_key
    pyjwt.Algorithms.Rsa.check_rsa_key_length pyjwt.Algorithms.Rsa.rsa_sign
    pyjwt.Algorithms.Rsa.rsa_verify pyjwt.Algorithms.Ec.validate_curve
    pyjwt.Algorithms.Ec.load_ec_key pyjwt.Algorithms.Ec.prepare_ec_key pyjwt.Algorithms.Ec.ec_sign
    pyjwt.Algorithms.Ec.ec_verify pyjwt.Algorithms.Okp.prepare_okp_key pyjwt.Algorithms.Okp.okp_sign
    pyjwt.Algorithms.Okp.okp_verify pyjwt.Algorithms.Crypto.check_crypto_key_type
    pyjwt.Algorithms.Crypto.load_checked pyjwt.Utils.Signatures.raw_to_der_signature
    pyjwt.Utils.Signatures.der_to_raw_signature pyjwt.Utils.Signatures.number_to_bytes
    pyjwt.Utils.Signatures.bytes_to_number pyjwt.Utils.Signatures.padded_hex
    pyjwt.Utils.Signatures.hex_digits pyjwt.Utils.Signatures.a2b_hex pyjwt.Utils.Numbers.value_from
    pyjwt.Utils.Numbers.bit_length_from pyjwt.Utils.Numbers.digits
rsa_decodes = refl

ec_decodes :
    decode_complete true
      (key_codec "ES256")
      key_jws
      (Text.bytes ec_token)
      (plain (object ec_public_key))
      (some ("ES256" ∷ []))
      none
      none
    ≡ ok (key_message "ES256" ec_signature)
unfolding pyjwt.Jws.State.init pyjwt.Jws.State.merge_sig_options pyjwt.Jws.State.keep_valid
    pyjwt.Jws.State.get_algorithm_by_name pyjwt.Prelude.Assoc.find
    pyjwt.Algorithms.get_default_algorithms pyjwt.Jws.Load.load pyjwt.Jws.Load.token_bytes
    pyjwt.Jws.Load.split_dot pyjwt.Jws.Load.rsplit_dot pyjwt.Utils.Text.force_bytes
    pyjwt.Utils.Base64.base64url_decode pyjwt.Utils.Base64.urlsafe_b64decode
    pyjwt.Utils.Base64.add_padding pyjwt.Utils.Base64.a2b_base64 pyjwt.Utils.Base64.step
    pyjwt.Utils.Base64.feed pyjwt.Utils.Base64.pad pyjwt.Utils.Base64.finish
    pyjwt.Utils.Base64.from_urlsafe pyjwt.Utils.Base64.decode_sextet
    pyjwt.Jws.Verify.decode_complete pyjwt.Jws.Verify.decode_loaded
    pyjwt.Jws.Verify.verify_signature pyjwt.Jws.Verify.choose pyjwt.Jws.Verify.algorithm_of_value
    pyjwt.Jws.Verify.check_key_length pyjwt.Jws.Verify.attach pyjwt.Jws.Headers.validate_headers
    pyjwt.Jws.Headers.validate_kid pyjwt.Value.lookup pyjwt.Algorithms.hmac_verify
    pyjwt.Algorithms.hmac_sign pyjwt.Algorithms.compare_digest
    pyjwt.Algorithms.check_hmac_key_length pyjwt.Algorithms.prepare_hmac_key
    pyjwt.Algorithms.Rsa.load_rsa_key pyjwt.Algorithms.Rsa.prepare_rsa_key
    pyjwt.Algorithms.Rsa.check_rsa_key_length pyjwt.Algorithms.Rsa.rsa_sign
    pyjwt.Algorithms.Rsa.rsa_verify pyjwt.Algorithms.Ec.validate_curve
    pyjwt.Algorithms.Ec.load_ec_key pyjwt.Algorithms.Ec.prepare_ec_key pyjwt.Algorithms.Ec.ec_sign
    pyjwt.Algorithms.Ec.ec_verify pyjwt.Algorithms.Okp.prepare_okp_key pyjwt.Algorithms.Okp.okp_sign
    pyjwt.Algorithms.Okp.okp_verify pyjwt.Algorithms.Crypto.check_crypto_key_type
    pyjwt.Algorithms.Crypto.load_checked pyjwt.Utils.Signatures.raw_to_der_signature
    pyjwt.Utils.Signatures.der_to_raw_signature pyjwt.Utils.Signatures.number_to_bytes
    pyjwt.Utils.Signatures.bytes_to_number pyjwt.Utils.Signatures.padded_hex
    pyjwt.Utils.Signatures.hex_digits pyjwt.Utils.Signatures.a2b_hex pyjwt.Utils.Numbers.value_from
    pyjwt.Utils.Numbers.bit_length_from pyjwt.Utils.Numbers.digits
ec_decodes = refl

ed_decodes :
    decode_complete true
      (key_codec "EdDSA")
      key_jws
      (Text.bytes ed_token)
      (plain (object ed_public_key))
      (some ("EdDSA" ∷ []))
      none
      none
    ≡ ok (key_message "EdDSA" (70 ∷ []))
unfolding pyjwt.Jws.State.init pyjwt.Jws.State.merge_sig_options pyjwt.Jws.State.keep_valid
    pyjwt.Jws.State.get_algorithm_by_name pyjwt.Prelude.Assoc.find
    pyjwt.Algorithms.get_default_algorithms pyjwt.Jws.Load.load pyjwt.Jws.Load.token_bytes
    pyjwt.Jws.Load.split_dot pyjwt.Jws.Load.rsplit_dot pyjwt.Utils.Text.force_bytes
    pyjwt.Utils.Base64.base64url_decode pyjwt.Utils.Base64.urlsafe_b64decode
    pyjwt.Utils.Base64.add_padding pyjwt.Utils.Base64.a2b_base64 pyjwt.Utils.Base64.step
    pyjwt.Utils.Base64.feed pyjwt.Utils.Base64.pad pyjwt.Utils.Base64.finish
    pyjwt.Utils.Base64.from_urlsafe pyjwt.Utils.Base64.decode_sextet
    pyjwt.Jws.Verify.decode_complete pyjwt.Jws.Verify.decode_loaded
    pyjwt.Jws.Verify.verify_signature pyjwt.Jws.Verify.choose pyjwt.Jws.Verify.algorithm_of_value
    pyjwt.Jws.Verify.check_key_length pyjwt.Jws.Verify.attach pyjwt.Jws.Headers.validate_headers
    pyjwt.Jws.Headers.validate_kid pyjwt.Value.lookup pyjwt.Algorithms.hmac_verify
    pyjwt.Algorithms.hmac_sign pyjwt.Algorithms.compare_digest
    pyjwt.Algorithms.check_hmac_key_length pyjwt.Algorithms.prepare_hmac_key
    pyjwt.Algorithms.Rsa.load_rsa_key pyjwt.Algorithms.Rsa.prepare_rsa_key
    pyjwt.Algorithms.Rsa.check_rsa_key_length pyjwt.Algorithms.Rsa.rsa_sign
    pyjwt.Algorithms.Rsa.rsa_verify pyjwt.Algorithms.Ec.validate_curve
    pyjwt.Algorithms.Ec.load_ec_key pyjwt.Algorithms.Ec.prepare_ec_key pyjwt.Algorithms.Ec.ec_sign
    pyjwt.Algorithms.Ec.ec_verify pyjwt.Algorithms.Okp.prepare_okp_key pyjwt.Algorithms.Okp.okp_sign
    pyjwt.Algorithms.Okp.okp_verify pyjwt.Algorithms.Crypto.check_crypto_key_type
    pyjwt.Algorithms.Crypto.load_checked pyjwt.Utils.Signatures.raw_to_der_signature
    pyjwt.Utils.Signatures.der_to_raw_signature pyjwt.Utils.Signatures.number_to_bytes
    pyjwt.Utils.Signatures.bytes_to_number pyjwt.Utils.Signatures.padded_hex
    pyjwt.Utils.Signatures.hex_digits pyjwt.Utils.Signatures.a2b_hex pyjwt.Utils.Numbers.value_from
    pyjwt.Utils.Numbers.bit_length_from pyjwt.Utils.Numbers.digits
ed_decodes = refl

decode_complete-rsa_example :
    IsRsaAuthentic small true key_jws pkcs1v15 sha256
      (key_codec "RS256")
      (Text.bytes rsa_token)
      (object rsa_public_key)
      none
      (key_message "RS256" (72 ∷ []))
unfolding lookup
decode_complete-rsa_example =
    decode_complete-rsa small true key_jws "RS256" (key_codec "RS256") (Text.bytes rsa_token)
      (object rsa_public_key) (some ("RS256" ∷ [])) none none (key_message "RS256" (72 ∷ []))
      pkcs1v15 sha256 key_verifies rs256_found refl rsa_decodes

decode_complete-ec_example :
    IsEcAuthentic small true key_jws sha256 secp256r1
      (key_codec "ES256")
      (Text.bytes ec_token)
      (object ec_public_key)
      none
      (key_message "ES256" ec_signature)
unfolding lookup
decode_complete-ec_example =
    decode_complete-ec small true key_jws "ES256" (key_codec "ES256") (Text.bytes ec_token)
      (object ec_public_key) (some ("ES256" ∷ [])) none none (key_message "ES256" ec_signature)
      sha256 secp256r1 key_verifies es256_found refl ec_decodes

decode_complete-okp_example :
    IsEdAuthentic small true key_jws
      (key_codec "EdDSA")
      (Text.bytes ed_token)
      (object ed_public_key)
      none
      (key_message "EdDSA" (70 ∷ []))
unfolding lookup
decode_complete-okp_example =
    decode_complete-okp small true key_jws "EdDSA" (key_codec "EdDSA") (Text.bytes ed_token)
      (object ed_public_key) (some ("EdDSA" ∷ [])) none none (key_message "EdDSA" (70 ∷ []))
      key_verifies eddsa_found refl ed_decodes
