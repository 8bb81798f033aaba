-- ===== src/Jws/KeySecurity.antt =====
-- What verification in jwt/api_jws.py establishes with the algorithms of the cryptography package.
use mathlib.Core.Path.{subst}
use pyjwt.Prelude.{Bool, true, ◌≡◌, ap, ◌∙◌, Option, some, String, List}
use pyjwt.Prelude.Assoc.{find}
use pyjwt.Errors.{ok}
use pyjwt.Value.{lookup, str}
use pyjwt.Utils.Text.{Bytes, Text}
use pyjwt.Utils.Signatures.{raw_to_der_signature}
use pyjwt.Algorithms.{Key, object, Hash, Curve}
use pyjwt.Algorithms.Crypto.{Cryptography, Padding, rsa_public_key, is_one_of}
use pyjwt.Algorithms.Rsa.{rsa_with, prepare_rsa_key}
use pyjwt.Algorithms.RsaLaws.{rsa_verify-eq-true}
use pyjwt.Algorithms.Ec.{ec_algorithm, ec_key_types, prepare_ec_key, ec_verify}
use pyjwt.Algorithms.EcLaws as Ec
use pyjwt.Algorithms.EcLaws.{prepare_ec_key-HasCurve, ec_verify-eq-true}
use pyjwt.Algorithms.Okp.{okp_algorithm, okp_key_types, prepare_okp_key, okp_verify}
use pyjwt.Algorithms.OkpLaws as Okp
use pyjwt.Algorithms.OkpLaws.{prepare_okp_key-HasClass, okp_verify-eq-true}
use pyjwt.Jws.State.{PyJws, SomeSigOptions, merge_sig_options}
use pyjwt.Jws.Load.{Json}
use pyjwt.Jws.Verify.{plain, Decoded, decode_complete}
use pyjwt.Jws.Security.{IsOver, decode_complete-IsAccepted}

module _ {O : Type 0} (c : Cryptography O) (has_crypto : Bool) (jws : PyJws O) where
  -- The package accepted the signature with the caller's key, a public RSA key.
  pub record IsRsaAuthentic (p : Padding) (h : Hash) (json : Json) (jwt : Text) (key : Key O)
      (detached_payload : Option Bytes) (d : Decoded) : Type 0 where
    pub signing_input : Bytes
    pub is_over : IsOver has_crypto jws json jwt detached_payload d signing_input
    pub rsa_key : O
    pub prepared : prepare_rsa_key c key ≡ ok (object rsa_key)
    pub is_public : c.class_of rsa_key ≡ rsa_public_key
    pub verified : c.rsa_verify rsa_key d.signature signing_input p h ≡ ok tt

  -- The package accepted the signature in DER with the caller's key, an EC key on the curve.
  pub record IsEcAuthentic (h : Hash) (curve : Curve) (json : Json) (jwt : Text) (key : Key O)
      (detached_payload : Option Bytes) (d : Decoded) : Type 0 where
    pub signing_input : Bytes
    pub is_over : IsOver has_crypto jws json jwt detached_payload d signing_input
    pub ec_key : O
    pub prepared : prepare_ec_key c (some curve) key ≡ ok (object ec_key)
    pub is_ec : is_one_of (c.class_of ec_key) ec_key_types ≡ true
    pub on_curve : c.curve ec_key ≡ some curve
    pub der : Bytes
    pub is_der : raw_to_der_signature c.dss d.signature (c.curve_key_size ec_key) ≡ ok der
    pub verified :
        c.ec_verify (Ec.public_of c (c.class_of ec_key) ec_key) der signing_input h ≡ ok tt

  -- The package accepted the signature with the caller's key, an Ed25519 or Ed448 key.
  pub record IsEdAuthentic (json : Json) (jwt : Text) (key : Key O)
      (detached_payload : Option Bytes) (d : Decoded) : Type 0 where
    pub signing_input : Bytes
    pub is_over : IsOver has_crypto jws json jwt detached_payload d signing_input
    pub ed_key : O
    pub prepared : prepare_okp_key c key ≡ ok (object ed_key)
    pub is_ed : is_one_of (c.class_of ed_key) okp_key_types ≡ true
    pub verified :
        c.ed_verify (Okp.public_of c (c.class_of ed_key) ed_key) d.signature signing_input ≡ ok tt

  module _ (name : String) (json : Json) (jwt : Text) (key : Key O)
      (algorithms : Option (List String)) (options : Option SomeSigOptions)
      (detached_payload : Option Bytes) (d : Decoded) where
    -- If decoding, with verification on and a key that is no PyJWK, returns a message whose header
    -- names an algorithm that is RSA in the table, with either padding, then the caller's key is a
    -- public RSA key and the package accepted the signature over the signing input with it.
    pub decode_complete-rsa :
        (p : Padding) (h : Hash)
        → (merge_sig_options jws.options options).verify_signature ≡ true
        → find name jws.algorithms ≡ some (rsa_with c p h)
        → lookup "alg" d.header ≡ some (str name)
        → decode_complete has_crypto json jws jwt (plain key) algorithms options detached_payload
          ≡ ok d
        → IsRsaAuthentic p h json jwt key detached_payload d
    decode_complete-rsa p h on f alg e =
        let a =
          decode_complete-IsAccepted has_crypto jws name (rsa_with c p h) json jwt key algorithms
            options detached_payload d on f alg e in
        let (o, is_object, is_public, verified) =
          rsa_verify-eq-true c h p a.signing_input a.prepared_key d.signature a.verified in
        record {
          signing_input = a.signing_input;
          is_over = a.is_over;
          rsa_key = o;
          prepared = a.prepared ∙ ap ok is_object;
          is_public = is_public;
          verified = verified;
        }

    -- If decoding, with verification on and a key that is no PyJWK, returns a message whose header
    -- names an algorithm that is EC with some curve in the table, then the caller's key is an EC key
    -- on that curve, the signature is raw and in the curve's size, and the package accepted it in DER
    -- over the signing input with that key or its public key.
    pub decode_complete-ec :
        (h : Hash) (curve : Curve)
        → (merge_sig_options jws.options options).verify_signature ≡ true
        → find name jws.algorithms ≡ some (ec_algorithm c h curve)
        → lookup "alg" d.header ≡ some (str name)
        → decode_complete has_crypto json jws jwt (plain key) algorithms options detached_payload
          ≡ ok d
        → IsEcAuthentic h curve json jwt key detached_payload d
    decode_complete-ec h curve on f alg e =
        let a =
          decode_complete-IsAccepted has_crypto jws name (ec_algorithm c h curve) json jwt key
            algorithms options detached_payload d on f alg e in
        let (o, is_object, is_ec, on_curve) =
          prepare_ec_key-HasCurve c curve key a.prepared_key a.prepared in
        let (der, is_der, verified) = ec_verify-eq-true c h a.signing_input o d.signature (
          subst (λ (k : Key O). ec_verify c h a.signing_input k d.signature ≡ ok true) is_object
            a.verified) in
        record {
          signing_input = a.signing_input;
          is_over = a.is_over;
          ec_key = o;
          prepared = a.prepared ∙ ap ok is_object;
          is_ec = is_ec;
          on_curve = on_curve;
          der = der;
          is_der = is_der;
          verified = verified;
        }

    -- If decoding, with verification on and a key that is no PyJWK, returns a message whose header
    -- names an algorithm that is EdDSA in the table, then the caller's key is an Ed25519 or Ed448 key
    -- and the package accepted the signature over the signing input with that key or its public key.
    pub decode_complete-okp :
        (merge_sig_options jws.options options).verify_signature ≡ true
        → find name jws.algorithms ≡ some (okp_algorithm c)
        → lookup "alg" d.header ≡ some (str name)
        → decode_complete has_crypto json jws jwt (plain key) algorithms options detached_payload
          ≡ ok d
        → IsEdAuthentic json jwt key detached_payload d
    decode_complete-okp on f alg e =
        let a =
          decode_complete-IsAccepted has_crypto jws name (okp_algorithm c) json jwt key algorithms
            options detached_payload d on f alg e in
        let (o, is_object, is_ed) = prepare_okp_key-HasClass c key a.prepared_key a.prepared in
        record {
          signing_input = a.signing_input;
          is_over = a.is_over;
          ed_key = o;
          prepared = a.prepared ∙ ap ok is_object;
          is_ed = is_ed;
          verified = okp_verify-eq-true c a.signing_input o d.signature (
              subst (λ (k : Key O). okp_verify c a.signing_input k d.signature ≡ ok true) is_object
                a.verified);
        }
