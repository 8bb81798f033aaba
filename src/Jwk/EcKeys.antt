-- ===== src/Jwk/EcKeys.antt =====
-- `PyJWK` of jwt/api_jwk.py on what `to_jwk` of `ECAlgorithm` makes.
use mathlib.Core.Path.{subst}
use pyjwt.Prelude.{◌≡◌, refl, sym, ◌∙◌, ◌⊎◌, none, some, String}
use pyjwt.Errors.{ok}
use pyjwt.Errors.Bind.{>>=-eq-ok, ok-injective}
use pyjwt.Value.{Dict, dict, str}
use pyjwt.Utils.Text.{Bytes}
use pyjwt.Algorithms.{
  object, Hash, sha256, sha384, sha512, Curve, secp256r1, secp256k1, secp384r1, secp521r1,
}
use pyjwt.Algorithms.Crypto.{Cryptography, ec_private_key, ec_public_key}
use pyjwt.Algorithms.CryptoLaws.{EcLaws}
use pyjwt.Algorithms.Backends.{with_cryptography}
use pyjwt.Algorithms.Ec.{ec_algorithm}
use pyjwt.Algorithms.EcJwk.{ec_to_jwk}
use pyjwt.Algorithms.EcJwkLaws.{IsEcJwk, SamePublicKey, SamePrivateKey, ec_from_jwk-ec_to_jwk}
use pyjwt.Algorithms.JwkText.{JsonText, ReadsJwk, ec_to_text}
use pyjwt.Jwk.FromJson.{from_json}
use pyjwt.Jwk
use pyjwt.Jwk.{PyJwk, algorithm_for, choose_algorithm, lookup_algorithm}

-- The algorithm of RFC 7518 or RFC 8812 for a curve, and its hash.
abbrev pub jws_name : Curve → String
jws_name secp256r1 = "ES256"
jws_name secp256k1 = "ES256K"
jws_name secp384r1 = "ES384"
jws_name secp521r1 = "ES512"

abbrev pub hash : Curve → Hash
hash secp256r1 = sha256
hash secp256k1 = sha256
hash secp384r1 = sha384
hash secp521r1 = sha512

module _ {O : Type 0} (c : Cryptography O) (hmac : Hash → Bytes → Bytes → Bytes) where
  -- `PyJWK` chooses the algorithm by the key type and the curve.
  choose_algorithm-IsEcJwk :
      (curve : Curve) (d : Dict)
      → IsEcJwk curve d
      → choose_algorithm none d ≡ ok (str (jws_name curve))
  unfolding choose_algorithm algorithm_for
  choose_algorithm-IsEcJwk secp256r1 d (kty, crv, alg) = rw (kty, crv, alg)
  choose_algorithm-IsEcJwk secp256k1 d (kty, crv, alg) = rw (kty, crv, alg)
  choose_algorithm-IsEcJwk secp384r1 d (kty, crv, alg) = rw (kty, crv, alg)
  choose_algorithm-IsEcJwk secp521r1 d (kty, crv, alg) = rw (kty, crv, alg)

  lookup_algorithm-ec :
      (curve : Curve)
      → lookup_algorithm (with_cryptography c hmac) (str (jws_name curve))
        ≡ ok (jws_name curve, ec_algorithm c (hash curve) curve)
  unfolding lookup_algorithm pyjwt.Algorithms.get_default_algorithms pyjwt.Prelude.Assoc.find
  lookup_algorithm-ec secp256r1 = refl
  lookup_algorithm-ec secp256k1 = refl
  lookup_algorithm-ec secp384r1 = refl
  lookup_algorithm-ec secp521r1 = refl

  -- With the package installed, `PyJWK` of the JWK that `to_jwk` makes of an EC key on one of the four
  -- curves has the algorithm that belongs to the curve, checking for that curve, and a key of
  -- the same class and curve with the same numbers; the package's numbers must fit into the size of
  -- their curve, and it must rebuild a key from them.
  pub init-ec_to_jwk :
      (laws : EcLaws c) (o : O) (curve : Curve)
      → c.curve o ≡ some curve
      → (c.class_of o ≡ ec_private_key) ⊎ (c.class_of o ≡ ec_public_key)
      → (d : Dict) × (k : PyJwk O) × (o' : O) × (ec_to_jwk c o ≡ ok d)
        × (Jwk.init (with_cryptography c hmac) d none ≡ ok k)
        × (k.algorithm_name ≡ jws_name curve)
        × (k.algorithm ≡ ec_algorithm c (hash curve) curve)
        × (k.key ≡ object o')
        × (SamePrivateKey c o o' curve ⊎ SamePublicKey c o o' curve)
  unfolding pyjwt.Jwk.init
  init-ec_to_jwk laws o curve on_curve is_ec =
      let (d, o', made, shape, read, same) = ec_from_jwk-ec_to_jwk c laws o curve on_curve is_ec in
      (
        d,
        record {
          jwk_data = d;
          algorithm_name = jws_name curve;
          algorithm = ec_algorithm c (hash curve) curve;
          key = object o';
        },
        o',
        made,
        rw (choose_algorithm-IsEcJwk curve d shape, shape.0, lookup_algorithm-ec curve, read),
        refl,
        refl,
        refl,
        same,
      )

  -- `PyJWK.from_json` reads the JSON text that `to_jwk` makes of an EC key on one of the four curves, if
  -- json reads back what it wrote: the key has the algorithm that belongs to the curve,
  -- checking for that curve, and the same class, curve and numbers; the package is installed, its
  -- numbers fit into the size of their curve, and it rebuilds a key from them.
  pub from_json-ec_to_text :
      (laws : EcLaws c) (json : JsonText) (o : O) (curve : Curve) (text : String)
      → c.curve o ≡ some curve
      → (c.class_of o ≡ ec_private_key) ⊎ (c.class_of o ≡ ec_public_key)
      → ec_to_text c json o ≡ ok text
      → ((d : Dict) → ec_to_jwk c o ≡ ok d → ReadsJwk json d)
      → (k : PyJwk O) × (o' : O) × (from_json (with_cryptography c hmac) json text none ≡ ok k)
        × (k.algorithm_name ≡ jws_name curve)
        × (k.algorithm ≡ ec_algorithm c (hash curve) curve)
        × (k.key ≡ object o')
        × (SamePrivateKey c o o' curve ⊎ SamePublicKey c o o' curve)
  unfolding from_json ec_to_text
  from_json-ec_to_text laws json o curve text on_curve is_ec written reads =
      let (d, k, o', made, init, named, algorithm, key, same) =
        init-ec_to_jwk laws o curve on_curve is_ec in
      let (d', made', dumped) = >>=-eq-ok (ec_to_jwk c o) _ written in
      let read =
        subst (λ (x : Dict). json.loads text ≡ ok (dict x)) (ok-injective (sym made' ∙ made))
          (reads d' made' text dumped) in
      (k, o', rw (read, init), named, algorithm, key, same)
