-- ===== src/Jws/KeyRoundTrip.antt =====
-- `encode` and then `decode_complete` of jwt/api_jws.py under a key pair of the cryptography package.
use mathlib.Core.Path.{subst}
use pyjwt.Prelude.{
  Bool, true, false, ◌≡◌, sym, ◌∙◌, inl, inr, Option, none, some, String, List, is_in, ◌==◌,
}
use pyjwt.Errors.{ok}
use pyjwt.Errors.Bind.{ok-injective}
use pyjwt.Value.{Dict, lookup}
use pyjwt.Value.DictLaws.{IsUnique, SameEntries}
use pyjwt.Utils.Text.{Bytes, IsBytes, Text}
use pyjwt.Algorithms.{Algorithm, Key, object, Hash, Curve}
use pyjwt.Algorithms.Crypto.{
  Cryptography, EdCurve, Padding, rsa_private_key, rsa_public_key, ec_private_key,
}
use pyjwt.Algorithms.CryptoLaws.{IsLawful, ed_private_class}
use pyjwt.Algorithms.Rsa.{rsa_with, prepare_rsa_key, rsa_sign, rsa_verify}
use pyjwt.Algorithms.Ec.{ec_algorithm}
use pyjwt.Algorithms.EcSigning.{ec_verify-public_key, prepare_ec_key-object}
use pyjwt.Algorithms.Okp.{okp_algorithm}
use pyjwt.Algorithms.OkpLaws.{okp_verify-okp_sign, prepare_okp_key-object}
use pyjwt.Jws.State.{PyJws, SomeSigOptions, merge_sig_options, get_algorithm_by_name}
use pyjwt.Jws.Load.{Json}
use pyjwt.Jws.Verify.{plain, Warning, Decoded, check_key_length, decode_complete}
use pyjwt.Jws.Encode.{named, Encoded, encode}
use pyjwt.Jws.Matching.{ReadsBack, KeysMatch}
use pyjwt.Jws.RoundTrip.{made, decode_complete-encode}

-- A private key of the package and its public key, for a handler.
pub data IsKeyPair {O : Type 0} (c : Cryptography O) : Algorithm O → O → O → Type 0 where
  rsa_pair :
      (p : Padding) (h : Hash) (o o' : O)
      → c.class_of o ≡ rsa_private_key
      → c.class_of o' ≡ rsa_public_key
      → c.rsa_public_numbers o' ≡ (c.rsa_private_numbers o).public_numbers
      → IsKeyPair c (rsa_with c p h) o o'
  ec_pair :
      (h : Hash) (curve : Curve) (o : O)
      → c.class_of o ≡ ec_private_key
      → c.curve o ≡ some curve
      → IsKeyPair c (ec_algorithm c h curve) o (c.ec_public_key o)
  ed_pair :
      (curve : EdCurve) (o : O)
      → c.class_of o ≡ ed_private_class curve
      → IsKeyPair c (okp_algorithm c) o (c.ed_public_key o)

module _ {O : Type 0} (c : Cryptography O) (laws : IsLawful c) where
  -- The handler prepares both keys of a pair as they are.
  prepares :
      {handler : Algorithm O} {o o' : O}
      → IsKeyPair c handler o o'
      → (handler.prepare_key (object o) ≡ ok (object o))
        × (handler.prepare_key (object o') ≡ ok (object o'))
  unfolding prepare_rsa_key
  prepares (rsa_pair p h o o' is_private is_public same) = (rw is_private, rw is_public)
  prepares (ec_pair h curve o is_private on_curve) =
      let (is_public, same_curve, _) = laws.ec.has_public_key o is_private in
      (
        prepare_ec_key-object c o curve (rw is_private) on_curve,
        prepare_ec_key-object c (c.ec_public_key o) curve (rw is_public) (same_curve ∙ on_curve),
      )
  prepares (ed_pair curve o is_private) = (
    prepare_okp_key-object c o curve (inl is_private),
    prepare_okp_key-object c (c.ed_public_key o) curve
        (inr (laws.ed.has_public_key o curve is_private)),
  )

  -- The public key accepts what the private key signs.
  accepts :
      (msg sig : Bytes) {handler : Algorithm O} {o o' : O}
      → IsKeyPair c handler o o'
      → handler.sign msg (object o) ≡ ok sig
      → IsBytes sig × (handler.verify msg (object o') sig ≡ ok true)
  unfolding rsa_sign rsa_verify
  accepts msg sig (rsa_pair p h o o' is_private is_public same) e =
      let signed = rw is_private at e in
      let (are_bytes, verified) =
        laws.rsa.signs o o' msg sig p h is_private is_public same signed in
      (are_bytes, rw (is_public, verified))
  accepts msg sig (ec_pair h curve o is_private on_curve) e =
      ec_verify-public_key c h msg laws.ec o curve sig is_private on_curve e
  accepts msg sig (ed_pair curve o is_private) e =
      let (are_bytes, _, with_public) =
        okp_verify-okp_sign c laws.ed msg o curve sig is_private e in
      (are_bytes, with_public)

  module _ (jws : PyJws O) (handler : Algorithm O) (o o' : O) (ws : List Warning)
      (pair : IsKeyPair c handler o o') where
    object_of_prepared : (k : Key O) → handler.prepare_key (object o) ≡ ok k → object o ≡ k
    object_of_prepared k h = ok-injective (sym (prepares pair).0 ∙ h)

    accepts-prepared :
        (k : Key O) (msg sig : Bytes)
        → handler.prepare_key (object o) ≡ ok k
        → handler.sign msg k ≡ ok sig
        → IsBytes sig × (handler.verify msg (object o') sig ≡ ok true)
    accepts-prepared k msg sig h e =
        accepts msg sig pair
          (subst (λ (x : Key O). handler.sign msg x ≡ ok sig) (sym (object_of_prepared k h)) e)

    pub IsKeyPair-KeysMatch :
        check_key_length jws handler (object o') ≡ ok ws
        → KeysMatch jws handler (object o) (object o') ws
    IsKeyPair-KeysMatch is_long = record {
      prepared = object o';
      prepares = (prepares pair).1;
      is_long = is_long;
      are_bytes = λ k msg sig h e. (accepts-prepared k msg sig h e).0;
      accepts = λ k msg sig h e. (accepts-prepared k msg sig h e).1;
    }

module _ {O : Type 0} (c : Cryptography O) (laws : IsLawful c) (has_crypto : Bool) (json : Json)
    (jws : PyJws O) (payload : Bytes) (given header' : Dict) (name : String)
    (sort_headers : Bool) where
  -- A token that `encode` makes under a private key of the package, with its payload attached and
  -- headers without "alg", "b64" and "crit" and with each key once, decodes with verification on
  -- under the public key and an algorithm list that has the name, if the length of the public key is
  -- accepted: the payload comes back exactly, and the header with the same entries. The algorithm may
  -- be RSA with either padding, EC on the key's curve, or EdDSA; the package's public keys accept
  -- what its private keys sign, the payload is bytes, and `json` reads back this header.
  pub decode_complete-encode_pair :
      (o o' : O) (e : Encoded) (algs : List String) (options : Option SomeSigOptions)
      (handler : Algorithm O) (ws : List Warning)
      → IsKeyPair c handler o o'
      → get_algorithm_by_name has_crypto jws name ≡ ok handler
      → check_key_length jws handler (object o') ≡ ok ws
      → IsUnique given
      → lookup "alg" given ≡ none
      → lookup "b64" given ≡ none
      → lookup "crit" given ≡ none
      → (name == "") ≡ false
      → is_in name algs ≡ true
      → IsBytes payload
      → ReadsBack json
          (made has_crypto json jws payload given header' name sort_headers)
          header'
          sort_headers
      → (merge_sig_options jws.options options).verify_signature ≡ true
      → encode has_crypto json jws payload
          (plain (object o))
          (named name)
          (some given)
          false
          sort_headers
        ≡ ok e
      → (d : Decoded) × (decode_complete has_crypto json jws
            (Text.bytes e.token)
            (plain (object o'))
            (some algs)
            options
            none
          ≡ ok d)
        × (d.payload ≡ payload)
        × SameEntries d.header (made has_crypto json jws payload given header' name sort_headers)
        × (d.warnings ≡ ws)
  decode_complete-encode_pair o o' e algs options handler ws pair found is_long unique no_alg no_b64
        no_crit named_ok allowed are_bytes reads on h =
      decode_complete-encode has_crypto json jws payload given header' name sort_headers (object o)
        (object o') e algs options handler ws unique no_alg no_b64 no_crit named_ok allowed
        are_bytes found (IsKeyPair-KeysMatch c laws jws handler o o' ws pair is_long) reads on h
