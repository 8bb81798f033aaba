-- ===== src/Algorithms/OkpJwkLaws.antt =====
-- `to_jwk` and then `from_jwk` of `OKPAlgorithm` in jwt/algorithms.py.
use pyjwt.Prelude.{◌≡◌, ◌∙◌, ◌⊎◌, inl, inr}
use pyjwt.Errors.{ok}
use pyjwt.Value.{Value, Dict, str, entry, empty, lookup}
use pyjwt.Utils.Text.{Bytes}
use pyjwt.Utils.Base64.{base64url_decode}
use pyjwt.Algorithms.{object}
use pyjwt.Algorithms.Crypto.{Cryptography, EdCurve, ed25519, ed448}
use pyjwt.Algorithms.CryptoLaws.{EdLaws, ed_public_class, ed_private_class}
use pyjwt.Algorithms.JwkNumbers.{text_of_value, bytes_at}
use pyjwt.Algorithms.JwkNumbers.Reading.{bytes_value-read}
use pyjwt.Algorithms.OkpJwk.{okp_to_jwk, okp_from_jwk, ed_name, public_to_jwk, private_to_jwk}

-- `o'` is a key of the same class with the same raw bytes.
module _ {O : Type 0} (c : Cryptography O) (o o' : O) (curve : EdCurve) where
  abbrev pub SamePublicKey : Type 0
  SamePublicKey =
      (c.class_of o ≡ ed_public_class curve)
      × (c.class_of o' ≡ ed_public_class curve)
      × (c.ed_public_bytes o' ≡ c.ed_public_bytes o)

  abbrev pub SamePrivateKey : Type 0
  SamePrivateKey =
      (c.class_of o ≡ ed_private_class curve)
      × (c.class_of o' ≡ ed_private_class curve)
      × (c.ed_private_bytes o' ≡ c.ed_private_bytes o)

module _ {O : Type 0} (c : Cryptography O) (o : O) where
  okp_to_jwk-public :
      (curve : EdCurve)
      → c.class_of o ≡ ed_public_class curve
      → okp_to_jwk c o ≡ public_to_jwk c curve o
  unfolding okp_to_jwk
  okp_to_jwk-public ed25519 h = rw h
  okp_to_jwk-public ed448 h = rw h

  okp_to_jwk-private :
      (curve : EdCurve)
      → c.class_of o ≡ ed_private_class curve
      → okp_to_jwk c o ≡ private_to_jwk c curve o
  unfolding okp_to_jwk
  okp_to_jwk-private ed25519 h = rw h
  okp_to_jwk-private ed448 h = rw h

abbrev public_jwk : EdCurve → Value → Dict
public_jwk curve x = entry "x" x (entry "kty" (str "OKP") (entry "crv" (str (ed_name curve)) empty))

abbrev private_jwk : EdCurve → Value → Value → Dict
private_jwk curve x d =
    entry "x" x (entry "d" d (entry "kty" (str "OKP") (entry "crv" (str (ed_name curve)) empty)))

module _ {O : Type 0} (c : Cryptography O) (x d : Value) (bs seed : Bytes) (o : O) where
  okp_from_jwk-public :
      (curve : EdCurve)
      → base64url_decode (text_of_value x) ≡ ok bs
      → c.make_ed_public_key curve bs ≡ ok o
      → okp_from_jwk c (public_jwk curve x) ≡ ok (object o)
  unfolding okp_from_jwk bytes_at lookup
  okp_from_jwk-public ed25519 read made = rw (read, made)
  okp_from_jwk-public ed448 read made = rw (read, made)

  okp_from_jwk-private :
      (curve : EdCurve)
      → base64url_decode (text_of_value x) ≡ ok bs
      → base64url_decode (text_of_value d) ≡ ok seed
      → c.make_ed_private_key curve seed ≡ ok o
      → okp_from_jwk c (private_jwk curve x d) ≡ ok (object o)
  unfolding okp_from_jwk bytes_at lookup
  okp_from_jwk-private ed25519 read_x read_d made = rw (read_x, read_d, made)
  okp_from_jwk-private ed448 read_x read_d made = rw (read_x, read_d, made)

-- The JWK that `to_jwk` makes of an Ed25519 or Ed448 key is read by `from_jwk` as a key of the same class
-- with the same raw bytes, public or private; the package must rebuild a key from its raw bytes.
pub okp_from_jwk-okp_to_jwk :
    {O : Type 0} (c : Cryptography O) (laws : EdLaws c) (o : O) (curve : EdCurve)
    → (c.class_of o ≡ ed_private_class curve) ⊎ (c.class_of o ≡ ed_public_class curve)
    → (d : Dict) × (o' : O) × (okp_to_jwk c o ≡ ok d)
      × (okp_from_jwk c d ≡ ok (object o'))
      × (SamePrivateKey c o o' curve ⊎ SamePublicKey c o o' curve)
okp_from_jwk-okp_to_jwk c laws o curve (inl is_private) =
    let bs = c.ed_public_bytes (c.ed_public_key o) in
    let seed = c.ed_private_bytes o in
    let (x, made_x, read_x) = bytes_value-read bs (laws.are_bytes (c.ed_public_key o)).0 in
    let (d, made_d, read_d) = bytes_value-read seed (laws.are_bytes o).1 in
    let (o', made, same_class, same) = laws.private_rebuilt o curve is_private in
    (
      private_jwk curve x d,
      o',
      okp_to_jwk-private c o curve is_private ∙ rw (made_x, made_d),
      okp_from_jwk-private c x d bs seed o' curve read_x read_d made,
      inl (is_private, same_class, same),
    )
okp_from_jwk-okp_to_jwk c laws o curve (inr is_public) =
    let bs = c.ed_public_bytes o in
    let (x, made_x, read_x) = bytes_value-read bs (laws.are_bytes o).0 in
    let (o', made, same_class, same) = laws.public_rebuilt o curve is_public in
    (
      public_jwk curve x,
      o',
      okp_to_jwk-public c o curve is_public ∙ rw made_x,
      okp_from_jwk-public c x x bs bs o' curve read_x made,
      inr (is_public, same_class, same),
    )
