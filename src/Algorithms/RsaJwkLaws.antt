-- ===== src/Algorithms/RsaJwkLaws.antt =====
-- `to_jwk` and then `from_jwk` of `RSAAlgorithm` in jwt/algorithms.py.
use pyjwt.Prelude.{◌≡◌, ◌⊎◌, inl, inr}
use pyjwt.Errors.{ok}
use pyjwt.Value.{Dict, str, entry, empty, lookup}
use pyjwt.Algorithms.{object}
use pyjwt.Algorithms.Crypto.{Cryptography, rsa_private_key, rsa_public_key}
use pyjwt.Algorithms.CryptoLaws.{RsaLaws}
use pyjwt.Algorithms.JwkNumbers.{uint_at}
use pyjwt.Algorithms.JwkNumbers.Reading.{uint_value-read}
use pyjwt.Algorithms.RsaJwk.{rsa_to_jwk, rsa_from_jwk, key_ops}

-- `o'` is a key of the same class with the same numbers.
module _ {O : Type 0} (c : Cryptography O) (o o' : O) where
  abbrev pub SamePublicKey : Type 0
  SamePublicKey =
      (c.class_of o ≡ rsa_public_key)
      × (c.class_of o' ≡ rsa_public_key)
      × (c.rsa_public_numbers o' ≡ c.rsa_public_numbers o)

  abbrev pub SamePrivateKey : Type 0
  SamePrivateKey =
      (c.class_of o ≡ rsa_private_key)
      × (c.class_of o' ≡ rsa_private_key)
      × (c.rsa_private_numbers o' ≡ c.rsa_private_numbers o)

module _ {O : Type 0} (c : Cryptography O) (laws : RsaLaws c) (o : O) where
  public_round_trip :
      c.class_of o ≡ rsa_public_key
      → (d : Dict) × (o' : O) × (rsa_to_jwk c o ≡ ok d)
        × (rsa_from_jwk c d ≡ ok (object o'))
        × SamePublicKey c o o'
  unfolding rsa_to_jwk rsa_from_jwk uint_at lookup
  public_round_trip is_public =
      let numbers = c.rsa_public_numbers o in
      let (n, made_n, read_n) = uint_value-read numbers.n in
      let (e, made_e, read_e) = uint_value-read numbers.e in
      let (o', made, same_class, same) = laws.public_rebuilt o is_public in
      (
        entry "kty" (str "RSA")
            (entry "key_ops" (key_ops "verify") (entry "n" n (entry "e" e empty))),
        o',
        rw (is_public, made_n, made_e),
        rw (read_e, read_n, made),
        (is_public, same_class, same),
      )

  private_round_trip :
      c.class_of o ≡ rsa_private_key
      → (d : Dict) × (o' : O) × (rsa_to_jwk c o ≡ ok d)
        × (rsa_from_jwk c d ≡ ok (object o'))
        × SamePrivateKey c o o'
  unfolding rsa_to_jwk rsa_from_jwk uint_at lookup
  private_round_trip is_private =
      let numbers = c.rsa_private_numbers o in
      let (n, made_n, read_n) = uint_value-read numbers.public_numbers.n in
      let (e, made_e, read_e) = uint_value-read numbers.public_numbers.e in
      let (d, made_d, read_d) = uint_value-read numbers.d in
      let (p, made_p, read_p) = uint_value-read numbers.p in
      let (q, made_q, read_q) = uint_value-read numbers.q in
      let (dp, made_dp, read_dp) = uint_value-read numbers.dmp1 in
      let (dq, made_dq, read_dq) = uint_value-read numbers.dmq1 in
      let (qi, made_qi, read_qi) = uint_value-read numbers.iqmp in
      let (o', made, same_class, same) = laws.private_rebuilt o is_private in
      (
        entry "kty" (str "RSA") (
            entry "key_ops" (key_ops "sign") (
              entry "n" n (
                entry "e" e (
                  entry "d" d (
                    entry "p" p
                      (entry "q" q (entry "dp" dp (entry "dq" dq (entry "qi" qi empty))))))))),
        o',
        rw (is_private, made_n, made_e, made_d, made_p, made_q, made_dp, made_dq, made_qi),
        rw (read_e, read_n, read_d, read_p, read_q, read_dp, read_dq, read_qi, made),
        (is_private, same_class, same),
      )

-- The JWK that `to_jwk` makes of an RSA key is read by `from_jwk` as a key of the same class, public
-- or private, with the same numbers; the package must rebuild a key from its numbers.
pub rsa_from_jwk-rsa_to_jwk :
    {O : Type 0} (c : Cryptography O) (laws : RsaLaws c) (o : O)
    → (c.class_of o ≡ rsa_private_key) ⊎ (c.class_of o ≡ rsa_public_key)
    → (d : Dict) × (o' : O) × (rsa_to_jwk c o ≡ ok d)
      × (rsa_from_jwk c d ≡ ok (object o'))
      × (SamePrivateKey c o o' ⊎ SamePublicKey c o o')
rsa_from_jwk-rsa_to_jwk c laws o (inl is_private) =
    let (d, o', made, read, same) = private_round_trip c laws o is_private in
    (d, o', made, read, inl same)
rsa_from_jwk-rsa_to_jwk c laws o (inr is_public) =
    let (d, o', made, read, same) = public_round_trip c laws o is_public in
    (d, o', made, read, inr same)
