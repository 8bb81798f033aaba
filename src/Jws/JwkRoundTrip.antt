-- ===== src/Jws/JwkRoundTrip.antt =====
-- `encode` of jwt/api_jws.py under an EC private key, and `decode_complete` under the PyJWK of
-- jwt/api_jwk.py that is read from the JSON text of the public key.
use mathlib.Core.Path.{subst}
use pyjwt.Prelude.{
  Bool, true, false, [], ◌∷◌, is_in, eq_refl, ◌≡◌, refl, sym, ap, ◌∙◌, ◌⊎◌, inl, inr, Option, none,
  some, String, ◌==◌,
}
use pyjwt.Errors.{Result, ok, err}
use pyjwt.Errors.Bind.{ok-injective}
use pyjwt.Value.{Dict, lookup}
use pyjwt.Value.DictLaws.{IsUnique, SameEntries}
use pyjwt.Utils.Text.{Bytes, IsBytes, Text}
use pyjwt.Utils.Signatures.{raw_to_der_signature}
use pyjwt.Algorithms.{
  Algorithm, Key, object, Hash, Curve, secp256r1, secp256k1, secp384r1, secp521r1,
}
use pyjwt.Algorithms.Crypto.{Cryptography, accepted, ec_private_key, ec_public_key}
use pyjwt.Algorithms.CryptoLaws.{EcLaws, key_size}
use pyjwt.Algorithms.Ec.{ec_algorithm, check_der, ec_verify}
use pyjwt.Algorithms.EcJwk.{ec_to_jwk}
use pyjwt.Algorithms.EcJwkLaws.{SamePublicKey, SamePrivateKey}
use pyjwt.Algorithms.EcSigning.{ec_verify-public_key, prepare_ec_key-object}
use pyjwt.Algorithms.Backends.{with_cryptography}
use pyjwt.Algorithms.JwkText.{JsonText, ReadsJwk, ec_to_text}
use pyjwt.Jwk.{PyJwk}
use pyjwt.Jwk.FromJson.{from_json}
use pyjwt.Jwk.EcKeys.{jws_name, hash, from_json-ec_to_text}
use pyjwt.Jws.State.{PyJws, SomeSigOptions, merge_sig_options, get_algorithm_by_name}
use pyjwt.Jws.Load.{Json}
use pyjwt.Jws.Verify.{plain, jwk, choose, check_key_length, Decoded, decode_complete}
use pyjwt.Jws.Encode.{named, Encoded, encode}
use pyjwt.Jws.Matching.{ReadsBack, ArgMatches}
use pyjwt.Jws.RoundTrip.{made, decode_complete-encode_arg}

jws_name-ne-nil : (curve : Curve) → (jws_name curve == "") ≡ false
jws_name-ne-nil secp256r1 = refl
jws_name-ne-nil secp256k1 = refl
jws_name-ne-nil secp384r1 = refl
jws_name-ne-nil secp521r1 = refl

is_in_self : (name : String) → is_in name (name ∷ []) ≡ true
is_in_self name = rw eq_refl

module _ {O : Type 0} (c : Cryptography O) (laws : EcLaws c) where
  check_der-alike :
      (der : Result Bytes) (h : Hash) (msg : Bytes) (o o' : O) (curve : Curve)
      → c.curve o ≡ some curve
      → SamePublicKey c o o' curve
      → check_der c der h msg o' ≡ check_der c der h msg o
  check_der-alike (err e) h msg o o' curve on_curve same = refl
  check_der-alike (ok der) h msg o o' curve on_curve (is_public, is_public', on_curve', same) =
      ap accepted (laws.alike o o' curve der msg h is_public is_public' on_curve on_curve' same)

  -- Two public keys on a curve with the same numbers accept the same signatures.
  ec_verify-alike :
      (h : Hash) (msg : Bytes) (o o' : O) (curve : Curve) (sig : Bytes)
      → c.curve o ≡ some curve
      → SamePublicKey c o o' curve
      → ec_verify c h msg (object o') sig ≡ ec_verify c h msg (object o) sig
  unfolding ec_verify
  ec_verify-alike h msg o o' curve sig on_curve same = rw (
    same.0,
    same.1,
    laws.sized o curve on_curve,
    laws.sized o' curve same.2,
    check_der-alike (raw_to_der_signature c.dss sig (key_size curve)) h msg o o' curve on_curve
        same,
  )

  public_of_same :
      (o o' : O) (curve : Curve)
      → c.class_of o ≡ ec_public_key
      → SamePrivateKey c o o' curve ⊎ SamePublicKey c o o' curve
      → SamePublicKey c o o' curve
  public_of_same o o' curve is_public (inl same) = cc (is_public, same.0)
  public_of_same o o' curve is_public (inr same) = same

module _ {O : Type 0} (c : Cryptography O) (laws : EcLaws c) (has_crypto : Bool) (json : Json)
    (jws : PyJws O) (o : O) (curve : Curve) (is_private : c.class_of o ≡ ec_private_key)
    (on_curve : c.curve o ≡ some curve) where
  abbrev handler : Algorithm O
  handler = ec_algorithm c (hash curve) curve

  -- The key that `prepare_key` leaves is the private key.
  object_of_prepared : (k : Key O) → handler.prepare_key (object o) ≡ ok k → object o ≡ k
  object_of_prepared k h =
      ok-injective (sym (prepare_ec_key-object c o curve (rw is_private) on_curve) ∙ h)

  accepted_by :
      (o' : O) (k : Key O) (msg sig : Bytes)
      → SamePublicKey c (c.ec_public_key o) o' curve
      → handler.prepare_key (object o) ≡ ok k
      → handler.sign msg k ≡ ok sig
      → IsBytes sig × (handler.verify msg (object o') sig ≡ ok true)
  accepted_by o' k msg sig same h e =
      let signed =
        subst (λ (x : Key O). handler.sign msg x ≡ ok sig) (sym (object_of_prepared k h)) e in
      let (are_bytes, accepts) =
        ec_verify-public_key c (hash curve) msg laws o curve sig is_private on_curve signed in
      let (_, same_curve, _) = laws.has_public_key o is_private in
      (
        are_bytes,
        ec_verify-alike c laws (hash curve) msg (c.ec_public_key o) o' curve sig
              (same_curve ∙ on_curve) same
            ∙ accepts,
      )

  jwk-ArgMatches :
      (k : PyJwk O) (o' : O)
      → k.algorithm_name ≡ jws_name curve
      → k.algorithm ≡ handler
      → k.key ≡ object o'
      → SamePublicKey c (c.ec_public_key o) o' curve
      → ArgMatches has_crypto jws handler (object o) (jwk k) none (jws_name curve) []
  unfolding choose check_key_length
  jwk-ArgMatches k o' same_name algorithm key same = record {
    algorithm = handler;
    prepared = object o';
    chosen = rw (algorithm, key);
    is_given = refl;
    is_allowed = rw (same_name, is_in_self (jws_name curve));
    is_long = refl;
    are_bytes = λ k msg sig h e. (accepted_by o' k msg sig same h e).0;
    accepts = λ k msg sig h e. (accepted_by o' k msg sig same h e).1;
  }

module _ {O : Type 0} (c : Cryptography O) (hmac : Hash → Bytes → Bytes → Bytes) (json : Json)
    (texts : JsonText) (jws : PyJws O) (payload : Bytes) (given header' : Dict) (curve : Curve)
    (sort_headers : Bool) where
  -- A key published as a JWK verifies: a token that `encode` makes under an EC private key, with the
  -- algorithm of the key's curve, its payload attached and headers without "alg", "b64" and "crit" and
  -- with each key once, decodes with verification on and no algorithm list under the PyJWK that
  -- `from_json` makes of the JSON text of its public key; the payload comes back exactly, the header
  -- with the same entries, and no warning. The package is installed and its handler of the curve is in
  -- the table, json reads back this header and this JWK, the payload is bytes, and the package keeps
  -- the laws of EC keys.
  pub decode_complete-encode_jwk :
      (laws : EcLaws c) (o : O) (e : Encoded) (text : String) (options : Option SomeSigOptions)
      → c.class_of o ≡ ec_private_key
      → c.curve o ≡ some curve
      → get_algorithm_by_name true jws (jws_name curve) ≡ ok (ec_algorithm c (hash curve) curve)
      → IsUnique given
      → lookup "alg" given ≡ none
      → lookup "b64" given ≡ none
      → lookup "crit" given ≡ none
      → IsBytes payload
      → ReadsBack json
          (made true json jws payload given header' (jws_name curve) sort_headers)
          header'
          sort_headers
      → (merge_sig_options jws.options options).verify_signature ≡ true
      → ec_to_text c texts (c.ec_public_key o) ≡ ok text
      → ((d : Dict) → ec_to_jwk c (c.ec_public_key o) ≡ ok d → ReadsJwk texts d)
      → encode true json jws payload
          (plain (object o))
          (named (jws_name curve))
          (some given)
          false
          sort_headers
        ≡ ok e
      → (k : PyJwk O) × (d : Decoded) × (from_json (with_cryptography c hmac) texts text none
          ≡ ok k)
        × (decode_complete true json jws (Text.bytes e.token) (jwk k) none options none ≡ ok d)
        × (d.payload ≡ payload)
        × SameEntries d.header
            (made true json jws payload given header' (jws_name curve) sort_headers)
        × (d.warnings ≡ [])
  decode_complete-encode_jwk laws o e text options is_private on_curve found unique no_alg no_b64
        no_crit are_bytes reads on written reads_jwk h =
      let (is_public, same_curve, _) = laws.has_public_key o is_private in
      let (k, o', read, same_name, algorithm, key, same) =
        from_json-ec_to_text c hmac laws texts (c.ec_public_key o) curve text
          (same_curve ∙ on_curve) (inr is_public) written reads_jwk in
      let match =
        jwk-ArgMatches c laws true json jws o curve is_private on_curve k o' same_name algorithm key
          (public_of_same c laws (c.ec_public_key o) o' curve is_public same) in
      let (d, decoded, same_payload, same_header, no_warnings) =
        decode_complete-encode_arg true json jws payload given header' (jws_name curve) sort_headers
          (object o) (jwk k) e none options (ec_algorithm c (hash curve) curve) [] unique no_alg
          no_b64 no_crit (jws_name-ne-nil curve) are_bytes found match reads on h in
      (k, d, read, decoded, same_payload, same_header, no_warnings)
