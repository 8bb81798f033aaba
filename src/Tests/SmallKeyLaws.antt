-- ===== src/Tests/SmallKeyLaws.antt =====
-- The small key package keeps the laws that jwt/algorithms.py relies on.
use pyjwt.Prelude.{
  ℕ, ◌+◌, ◌%◌, ◌^◌, ◌<◌, ◌≡◌, refl, sym, ap, Option, some, [], ◌∷◌, nat_eq, nat_eq_refl, arith,
}
use mathlib.Core.Path.{subst}
use pyjwt.Errors.{ok}
use pyjwt.Errors.Bind.{ok-injective}
use pyjwt.Utils.Text.{Bytes, IsBytes}
use pyjwt.Algorithms.{Hash, sha256, Curve, secp256r1, secp256k1, secp384r1, secp521r1}
use pyjwt.Algorithms.Crypto.{
  RsaPublicNumbers, EdCurve, ec_private_key, ec_public_key, ed25519, ed448,
}
use pyjwt.Algorithms.CryptoLaws.{
  ed_public_class, ed_private_class, RsaLaws, EcLaws, EdLaws, IsLawful, key_size,
}
use pyjwt.Utils.Numbers.{from_bytes}
use pyjwt.Tests.SmallKeys.{
  SmallKey, small, verified, size_of, private_number, public_number, verified_sum, rsa_private,
  rsa_public, ec_private, ec_public, ed_private, ed_public, sum,
}

byte-lt : (n : ℕ) (curve : Curve) → n % 256 < 2 ^ key_size curve
byte-lt n secp256r1 = omega arith
byte-lt n secp256k1 = omega arith
byte-lt n secp384r1 = omega arith
byte-lt n secp521r1 = omega arith

byte_byte : (n : ℕ) → n % 256 % 256 ≡ n % 256
byte_byte n = omega arith

sum-verified :
    (k k' : ℕ) (msg sig : Bytes)
    → k ≡ k'
    → ok (sum k msg ∷ []) ≡ ok sig
    → IsBytes sig × (verified_sum k' sig msg ≡ ok tt)
sum-verified k k' msg sig same e =
    subst (λ (x : Bytes). IsBytes x × (verified_sum k' x msg ≡ ok tt)) (ok-injective e)
      ((omega arith, tt), rw (same, nat_eq_refl (sum k' msg)))

rsa : RsaLaws small
rsa = record {
  public_rebuilt = λ o h. (rsa_public (small.rsa_public_numbers o), refl, refl, refl);
  private_rebuilt = λ o h. (rsa_private (small.rsa_private_numbers o), refl, refl, refl);
  signs = λ o o' msg sig p h c c' same e.
      sum-verified _ _ msg sig (ap (λ (k : RsaPublicNumbers). k.n) (sym same)) e;
}

curve-size : (o : Option Curve) (curve : Curve) → o ≡ some curve → size_of o ≡ key_size curve
curve-size o curve h = rw h

ec_signs :
    (o : SmallKey) (msg : Bytes) (h : Hash) (der : Bytes)
    → small.class_of o ≡ ec_private_key
    → small.ec_sign o msg h ≡ ok der
    → (r : ℕ) × (s : ℕ) × (small.dss.decode_dss_signature der ≡ ok (r, s))
      × (small.dss.encode_dss_signature r s ≡ ok der)
      × (r < 2 ^ small.curve_key_size o)
      × (s < 2 ^ small.curve_key_size o)
      × (small.ec_verify (small.ec_public_key o) der msg h ≡ ok tt)
ec_signs (ec_private curve d) msg h der c e =
    let s = sum d msg in
    let same = ok-injective e in
    (
      1,
      s,
      rw (← same),
      e,
      byte-lt 1 curve,
      byte-lt (d + from_bytes msg) curve,
      rw (← same, nat_eq_refl s),
    )
ec_signs (ed_private ed25519 d) msg h der c e = cc
ec_signs (ed_public ed25519 x) msg h der c e = cc
ec_signs _ msg h der c e = cc

ec_public_class :
    (o : SmallKey)
    → small.class_of o ≡ ec_private_key
    → (small.class_of (small.ec_public_key o) ≡ ec_public_key)
      × (small.curve (small.ec_public_key o) ≡ small.curve o)
      × (small.curve_key_size (small.ec_public_key o) ≡ small.curve_key_size o)
ec_public_class (ec_private curve d) c = (refl, refl, refl)
ec_public_class (ed_private ed25519 d) c = cc
ec_public_class (ed_public ed25519 x) c = cc
ec_public_class _ c = cc

ec_public_fits :
    (o : SmallKey) (curve : Curve)
    → ((small.ec_public_numbers o).0 < 2 ^ key_size curve)
      × ((small.ec_public_numbers o).1 < 2 ^ key_size curve)
ec_public_fits (ec_public c x y) curve = (byte-lt x curve, byte-lt y curve)
ec_public_fits (ec_private c d) curve = (byte-lt 0 curve, byte-lt 0 curve)
ec_public_fits _ curve = (byte-lt 0 curve, byte-lt 0 curve)

ec_private_fits : (o : SmallKey) (curve : Curve) → small.ec_private_value o < 2 ^ key_size curve
ec_private_fits (ec_private c d) curve = byte-lt d curve
ec_private_fits (ec_public c x y) curve = byte-lt 0 curve
ec_private_fits _ curve = byte-lt 0 curve

ec_public_rebuilt :
    (o : SmallKey) (curve : Curve)
    → small.class_of o ≡ ec_public_key
    → small.ec_public_numbers
        (ec_public curve (small.ec_public_numbers o).0 (small.ec_public_numbers o).1)
      ≡ small.ec_public_numbers o
ec_public_rebuilt (ec_public c x y) curve h = rw (byte_byte x, byte_byte y)
ec_public_rebuilt (ed_private ed25519 d) curve h = cc
ec_public_rebuilt (ed_public ed25519 x) curve h = cc
ec_public_rebuilt _ curve h = cc

ec_private_rebuilt :
    (o : SmallKey) (curve : Curve)
    → small.ec_private_value (ec_private curve (small.ec_private_value o))
      ≡ small.ec_private_value o
ec_private_rebuilt (ec_private c d) curve = byte_byte d
ec_private_rebuilt (ec_public c x y) curve = refl
ec_private_rebuilt _ curve = refl

verified_der-alike :
    (c c' : Curve) (x y x' y' : ℕ) (der msg : Bytes)
    → x' % 256 ≡ x % 256
    → small.ec_verify (ec_public c' x' y') der msg sha256
      ≡ small.ec_verify (ec_public c x y) der msg sha256
verified_der-alike c c' x y x' y' [] msg e = refl
verified_der-alike c c' x y x' y' (r ∷ []) msg e = refl
verified_der-alike c c' x y x' y' (r ∷ s ∷ t ∷ rest) msg e = refl
verified_der-alike c c' x y x' y' (r ∷ s ∷ []) msg e =
    let same : sum x' msg ≡ sum x msg = omega (arith, e) in
    ap (λ (n : ℕ). verified (nat_eq s n)) same

ec_alike :
    (o o' : SmallKey) (curve : Curve) (der msg : Bytes) (h : Hash)
    → small.class_of o ≡ ec_public_key
    → small.class_of o' ≡ ec_public_key
    → small.curve o ≡ some curve
    → small.curve o' ≡ some curve
    → small.ec_public_numbers o' ≡ small.ec_public_numbers o
    → small.ec_verify o' der msg h ≡ small.ec_verify o der msg h
ec_alike (ec_public c x y) (ec_public c' x' y') curve der msg h a b on on' e =
    verified_der-alike c c' x y x' y' der msg (ap (λ (p : ℕ × ℕ). p.0) e)
ec_alike (ec_public c x y) (ed_private ed25519 d) curve der msg h a b on on' e = cc
ec_alike (ec_public c x y) (ed_public ed25519 d) curve der msg h a b on on' e = cc
ec_alike (ec_public c x y) _ curve der msg h a b on on' e = cc
ec_alike (ed_private ed25519 d) o' curve der msg h a b on on' e = cc
ec_alike (ed_public ed25519 d) o' curve der msg h a b on on' e = cc
ec_alike _ o' curve der msg h a b on on' e = cc

ec : EcLaws small
ec = record {
  sized = λ o curve h. curve-size (small.curve o) curve h;
  coordinates_fit = λ o curve c h. ec_public_fits o curve;
  private_value_fits = λ o curve c h. ec_private_fits o curve;
  has_public_key = ec_public_class;
  public_rebuilt = λ o curve c h. (
    ec_public curve (small.ec_public_numbers o).0 (small.ec_public_numbers o).1,
    refl,
    refl,
    refl,
    ec_public_rebuilt o curve c,
  );
  private_rebuilt = λ o curve numbers c h e.
      (ec_private curve (small.ec_private_value o), refl, refl, refl, ec_private_rebuilt o curve);
  alike = ec_alike;
  signs = ec_signs;
}

ed_public_rebuilt :
    (o : SmallKey) (curve : EdCurve)
    → small.class_of o ≡ ed_public_class curve
    → (o' : SmallKey) × (small.make_ed_public_key curve (small.ed_public_bytes o) ≡ ok o')
      × (small.class_of o' ≡ ed_public_class curve)
      × (small.ed_public_bytes o' ≡ small.ed_public_bytes o)
ed_public_rebuilt (ed_public c x) curve h =
    (ed_public curve (x % 256), refl, refl, rw (byte_byte x))
ed_public_rebuilt (ed_private ed25519 x) ed25519 h = cc
ed_public_rebuilt (ed_private ed25519 x) ed448 h = cc
ed_public_rebuilt (ed_private ed448 x) ed25519 h = cc
ed_public_rebuilt _ ed25519 h = cc
ed_public_rebuilt _ ed448 h = cc

ed_private_rebuilt :
    (o : SmallKey) (curve : EdCurve)
    → small.class_of o ≡ ed_private_class curve
    → (o' : SmallKey) × (small.make_ed_private_key curve (small.ed_private_bytes o) ≡ ok o')
      × (small.class_of o' ≡ ed_private_class curve)
      × (small.ed_private_bytes o' ≡ small.ed_private_bytes o)
ed_private_rebuilt (ed_private c x) curve h =
    (ed_private curve (x % 256), refl, refl, rw (byte_byte x))
ed_private_rebuilt (ed_public ed25519 x) ed25519 h = cc
ed_private_rebuilt (ed_public ed25519 x) ed448 h = cc
ed_private_rebuilt (ed_public ed448 x) ed25519 h = cc
ed_private_rebuilt _ ed25519 h = cc
ed_private_rebuilt _ ed448 h = cc

ed_raw-IsBytes :
    (o : SmallKey) → IsBytes (small.ed_public_bytes o) × IsBytes (small.ed_private_bytes o)
ed_raw-IsBytes (ed_private c x) = ((omega arith, tt), (omega arith, tt))
ed_raw-IsBytes (ed_public c x) = ((omega arith, tt), (omega arith, tt))
ed_raw-IsBytes _ = (tt, tt)

-- The public key of a private key has its curve and its number.
ed_public_of :
    (o : SmallKey) (curve : EdCurve)
    → small.class_of o ≡ ed_private_class curve
    → (small.class_of (small.ed_public_key o) ≡ ed_public_class curve)
      × (private_number o ≡ public_number (small.ed_public_key o))
ed_public_of (ed_private ed25519 x) ed25519 h = (refl, refl)
ed_public_of (ed_private ed448 x) ed448 h = (refl, refl)
ed_public_of (ed_private ed25519 x) ed448 h = cc
ed_public_of (ed_private ed448 x) ed25519 h = cc
ed_public_of (ed_public ed25519 x) ed25519 h = cc
ed_public_of (ed_public ed25519 x) ed448 h = cc
ed_public_of _ ed25519 h = cc
ed_public_of _ ed448 h = cc

ed : EdLaws small
ed = record {
  public_rebuilt = ed_public_rebuilt;
  private_rebuilt = ed_private_rebuilt;
  are_bytes = ed_raw-IsBytes;
  has_public_key = λ o curve h. (ed_public_of o curve h).0;
  signs = λ o curve msg sig h e.
      sum-verified (private_number o) (public_number (small.ed_public_key o)) msg sig
        (ed_public_of o curve h).1 e;
}

pub small-IsLawful : IsLawful small
small-IsLawful = record { rsa = rsa; ec = ec; ed = ed }
