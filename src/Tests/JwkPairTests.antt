-- ===== src/Tests/JwkPairTests.antt =====
-- A token that is verified under a published key.
use pyjwt.Prelude.{some, true, false, ◌≡◌, refl, sym, ap, ◌∙◌, none, [], ◌∷◌, arith}
use pyjwt.Errors.{ok}
use pyjwt.Errors.Bind.{ok-injective}
use pyjwt.Value.{Dict, empty, entry, str, dict}
use pyjwt.Value.DictLaws.{SameEntries}
use pyjwt.Utils.Text
use pyjwt.Algorithms.{object, sha256, secp256r1}
use pyjwt.Algorithms.Ec.{ec_algorithm}
use pyjwt.Algorithms.Backends.{with_cryptography}
use pyjwt.Algorithms.EcJwk.{ec_to_jwk}
use pyjwt.Algorithms.JwkText.{JsonText, ec_to_text}
use pyjwt.Jwk.{PyJwk}
use pyjwt.Jwk.FromJson.{from_json}
use pyjwt.Jws.Verify.{jwk, Decoded, decode_complete}
use pyjwt.Jws.Encode.{make_header}
use pyjwt.Jws.JwkSecurity.{IsJwkAuthentic, decode_complete-jwk}
use pyjwt.Jws.JwkRoundTrip.{decode_complete-encode_jwk}
use pyjwt.Tests.Fixtures.{digest}
use pyjwt.Tests.SmallKeys.{SmallKey, small, small_key}
use pyjwt.Tests.SmallKeyLaws.{small-IsLawful}
use pyjwt.Tests.KeyFixtures.{
  key_header, key_codec, key_jws, ec_public_key, ec_token, ec_signature, key_message,
}
use pyjwt.Tests.KeyTests.{key_verifies}
use pyjwt.Tests.KeyPairTests.{coordinate, es256_named, reads_header, pair_encodes}

-- The JWK of the public key, and its text.
abbrev public_jwk : Dict
public_jwk =
    entry "kty" (str "EC")
      (entry "crv" (str "P-256") (entry "x" (str coordinate) (entry "y" (str coordinate) empty)))

abbrev public_json : JsonText
public_json = record { loads = λ text. ok (dict public_jwk); dumps = λ v. ok "jwk" }

made_jwk : ec_to_jwk small ec_public_key ≡ ok public_jwk
unfolding pyjwt.Algorithms.EcJwk.ec_to_jwk pyjwt.Algorithms.JwkNumbers.uint_value
    pyjwt.Utils.Ascii.decode_ascii pyjwt.Utils.Numbers.to_base64url_uint
    pyjwt.Utils.Numbers.bytes_from_int pyjwt.Utils.Numbers.to_bytes pyjwt.Utils.Numbers.digits
    pyjwt.Utils.Numbers.value_from pyjwt.Jws.Encode.encode pyjwt.Jws.Encode.sign_segments
    pyjwt.Jws.Encode.make_header pyjwt.Value.set pyjwt.Value.update pyjwt.Value.remove
    pyjwt.Utils.Base64.base64url_encode pyjwt.Utils.Base64.b2a_base64
    pyjwt.Utils.Base64.strip_padding pyjwt.Utils.Base64.to_urlsafe pyjwt.Utils.Base64.encode_sextet
made_jwk = refl

decode_complete-encode_jwk_example :
    (k : PyJwk SmallKey) × (d : Decoded) × (from_json
        (with_cryptography small digest)
        public_json
        "jwk"
        none
      ≡ ok k)
    × (decode_complete true (key_codec "ES256") key_jws (Text.bytes ec_token) (jwk k) none none none
        ≡ ok d)
    × (d.payload ≡ (b'p' ∷ []))
    × SameEntries d.header (make_header (str "ES256") empty false)
    × (d.warnings ≡ [])
unfolding pyjwt.Value.lookup ec_to_text
decode_complete-encode_jwk_example =
    decode_complete-encode_jwk small digest (key_codec "ES256") public_json key_jws (b'p' ∷ [])
      empty (key_header "ES256") secp256r1 false small-IsLawful.ec small_key
      (record { token = ec_token; warnings = [] }) "jwk" none refl refl es256_named tt refl refl
      refl (omega arith, tt) reads_header key_verifies (rw made_jwk)
      (λ d made text written. ap (λ (x : Dict). ok (dict x)) (ok-injective (sym made_jwk ∙ made)))
      pair_encodes

abbrev published_key : PyJwk SmallKey
published_key = record {
  jwk_data = public_jwk;
  algorithm_name = "ES256";
  algorithm = ec_algorithm small sha256 secp256r1;
  key = object ec_public_key;
}

-- The header names "RS256", which the caller allows, and the key is for ES256.
other_decodes :
    decode_complete true
      (key_codec "RS256")
      key_jws
      (Text.bytes ec_token)
      (jwk published_key)
      (some ("RS256" ∷ []))
      none
      none
    ≡ ok (key_message "RS256" ec_signature)
unfolding pyjwt.Jws.State.init pyjwt.Jws.State.merge_sig_options pyjwt.Jws.State.keep_valid
    pyjwt.Jws.State.get_algorithm_by_name pyjwt.Prelude.Assoc.find
    pyjwt.Algorithms.get_default_algorithms pyjwt.Jws.Load.load pyjwt.Jws.Load.token_bytes
    pyjwt.Jws.Load.split_dot pyjwt.Jws.Load.rsplit_dot pyjwt.Utils.Text.force_bytes
    pyjwt.Utils.Base64.base64url_decode pyjwt.Utils.Base64.urlsafe_b64decode
    pyjwt.Utils.Base64.add_padding pyjwt.Utils.Base64.a2b_base64 pyjwt.Utils.Base64.step
    pyjwt.Utils.Base64.feed pyjwt.Utils.Base64.pad pyjwt.Utils.Base64.finish
    pyjwt.Utils.Base64.from_urlsafe pyjwt.Utils.Base64.decode_sextet
    pyjwt.Jws.Verify.decode_complete pyjwt.Jws.Verify.decode_loaded
    pyjwt.Jws.Verify.verify_signature pyjwt.Jws.Verify.choose pyjwt.Jws.Verify.algorithm_of_value
    pyjwt.Jws.Verify.check_key_length pyjwt.Jws.Verify.attach pyjwt.Jws.Headers.validate_headers
    pyjwt.Jws.Headers.validate_kid pyjwt.Value.lookup pyjwt.Algorithms.hmac_verify
    pyjwt.Algorithms.hmac_sign pyjwt.Algorithms.compare_digest
    pyjwt.Algorithms.check_hmac_key_length pyjwt.Algorithms.prepare_hmac_key
    pyjwt.Algorithms.Rsa.load_rsa_key pyjwt.Algorithms.Rsa.prepare_rsa_key
    pyjwt.Algorithms.Rsa.check_rsa_key_length pyjwt.Algorithms.Rsa.rsa_sign
    pyjwt.Algorithms.Rsa.rsa_verify pyjwt.Algorithms.Ec.validate_curve
    pyjwt.Algorithms.Ec.load_ec_key pyjwt.Algorithms.Ec.prepare_ec_key pyjwt.Algorithms.Ec.ec_sign
    pyjwt.Algorithms.Ec.ec_verify pyjwt.Algorithms.Okp.prepare_okp_key pyjwt.Algorithms.Okp.okp_sign
    pyjwt.Algorithms.Okp.okp_verify pyjwt.Algorithms.Crypto.check_crypto_key_type
    pyjwt.Algorithms.Crypto.load_checked pyjwt.Utils.Signatures.raw_to_der_signature
    pyjwt.Utils.Signatures.der_to_raw_signature pyjwt.Utils.Signatures.number_to_bytes
    pyjwt.Utils.Signatures.bytes_to_number pyjwt.Utils.Signatures.padded_hex
    pyjwt.Utils.Signatures.hex_digits pyjwt.Utils.Signatures.a2b_hex pyjwt.Utils.Numbers.value_from
    pyjwt.Utils.Numbers.bit_length_from pyjwt.Utils.Numbers.digits
other_decodes = refl

decode_complete-jwk_example :
    IsJwkAuthentic true key_jws
      (key_codec "RS256")
      (Text.bytes ec_token)
      published_key
      (some ("RS256" ∷ []))
      none
      (key_message "RS256" ec_signature)
decode_complete-jwk_example =
    decode_complete-jwk true key_jws (key_codec "RS256") (Text.bytes ec_token) published_key
      (some ("RS256" ∷ [])) none none (key_message "RS256" ec_signature) key_verifies other_decodes
