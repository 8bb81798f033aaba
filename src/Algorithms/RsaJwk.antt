-- ===== src/Algorithms/RsaJwk.antt =====
-- jwt/algorithms.py: `to_jwk` with `as_dict=True`, and `from_jwk` of a dict, of `RSAAlgorithm`.
use pyjwt.Prelude.{Bool, true, false, ◌&&◌, ◌||◌, not, none, String, List, [], ◌∷◌, if◌then◌else◌}
use pyjwt.Errors.{Result, ok, raise, raise_if, attribute_error, invalid_key_error, ◌>>=◌, ◌>>◌}
use pyjwt.Value.{Value, Dict, str, list, nil, cons, empty, entry, has, get, eq_str}
use pyjwt.Algorithms.{Key, object}
use pyjwt.Algorithms.Crypto.{
  Cryptography, KeyClass, rsa_private_key, rsa_public_key, ec_private_key, ec_public_key,
  ed25519_public_key, ed448_public_key, RsaPublicNumbers, RsaPrivateNumbers,
}
use pyjwt.Algorithms.JwkNumbers.{uint_value, uint_at}

abbrev pub key_ops : String → Value
key_ops op = list (cons (str op) nil)

abbrev pub other_props : List String
other_props = "p" ∷ "q" ∷ "dp" ∷ "dq" ∷ "qi" ∷ []

-- any(prop in obj for prop in props), and all
abbrev pub any_in : Dict → List String → Bool
any_in obj [] = false
any_in obj (p ∷ ps) = has obj p || any_in obj ps

abbrev pub all_in : Dict → List String → Bool
all_in obj [] = true
all_in obj (p ∷ ps) = has obj p && all_in obj ps

module _ {O : Type 0} (c : Cryptography O) where
  abbrev private_to_jwk : RsaPrivateNumbers → Result Dict
  private_to_jwk numbers = do
    n ← uint_value numbers.public_numbers.n none
    e ← uint_value numbers.public_numbers.e none
    d ← uint_value numbers.d none
    p ← uint_value numbers.p none
    q ← uint_value numbers.q none
    dp ← uint_value numbers.dmp1 none
    dq ← uint_value numbers.dmq1 none
    qi ← uint_value numbers.iqmp none
    ok (
        entry "kty" (str "RSA") (
          entry "key_ops" (key_ops "sign") (
            entry "n" n (
              entry "e" e (
                entry "d" d (
                  entry "p" p
                    (entry "q" q (entry "dp" dp (entry "dq" dq (entry "qi" qi empty))))))))))

  abbrev public_to_jwk : RsaPublicNumbers → Result Dict
  public_to_jwk numbers = do
    n ← uint_value numbers.n none
    e ← uint_value numbers.e none
    ok (
        entry "kty" (str "RSA")
          (entry "key_ops" (key_ops "verify") (entry "n" n (entry "e" e empty))))

  -- A class with `private_numbers` or `verify` whose numbers are not those of RSA fails on an
  -- attribute; an object of `other_class` is taken to have neither method.
  abbrev class_to_jwk : KeyClass → O → Result Dict
  class_to_jwk rsa_private_key key = private_to_jwk (c.rsa_private_numbers key)
  class_to_jwk rsa_public_key key = public_to_jwk (c.rsa_public_numbers key)
  class_to_jwk ec_private_key key = raise attribute_error "n"
  class_to_jwk ec_public_key key = raise attribute_error "n"
  class_to_jwk ed25519_public_key key = raise attribute_error "public_numbers"
  class_to_jwk ed448_public_key key = raise attribute_error "public_numbers"
  class_to_jwk _ key = raise invalid_key_error "Not a public or private key"

  unfoldable pub rsa_to_jwk : O → Result Dict
  rsa_to_jwk key = class_to_jwk (c.class_of key) key

  abbrev public_numbers_at : Dict → Result RsaPublicNumbers
  public_numbers_at obj = do e ← uint_at obj "e"; n ← uint_at obj "n"; ok (record { e = e; n = n })

  -- With all of the other parameters, and with none of them.
  abbrev given_numbers : Dict → RsaPublicNumbers → Result RsaPrivateNumbers
  given_numbers obj public_numbers = do
    d ← uint_at obj "d"
    p ← uint_at obj "p"
    q ← uint_at obj "q"
    dp ← uint_at obj "dp"
    dq ← uint_at obj "dq"
    qi ← uint_at obj "qi"
    ok (record {
      p = p;
      q = q;
      d = d;
      dmp1 = dp;
      dmq1 = dq;
      iqmp = qi;
      public_numbers = public_numbers;
    })

  abbrev recovered_numbers : Dict → RsaPublicNumbers → Result RsaPrivateNumbers
  recovered_numbers obj public_numbers = do
    d ← uint_at obj "d"
    (p, q) ← c.rsa_recover_prime_factors public_numbers.n d public_numbers.e
    dmp1 ← c.rsa_crt_dmp1 d p
    dmq1 ← c.rsa_crt_dmq1 d q
    iqmp ← c.rsa_crt_iqmp p q
    ok (record {
      p = p;
      q = q;
      d = d;
      dmp1 = dmp1;
      dmq1 = dmq1;
      iqmp = iqmp;
      public_numbers = public_numbers;
    })

  unfoldable pub private_from_jwk : Dict → Result O
  private_from_jwk obj = do
    raise_if (has obj "oth") invalid_key_error
        "Unsupported RSA private key: > 2 primes not supported"
    raise_if (any_in obj other_props && not (all_in obj other_props)) invalid_key_error
        "RSA key must include all parameters if any are present besides d"
    public_numbers ← public_numbers_at obj
    numbers ←
        (if any_in obj other_props
          then given_numbers obj public_numbers
          else recovered_numbers obj public_numbers)
    c.make_rsa_private_key numbers

  unfoldable pub public_from_jwk : Dict → Result O
  public_from_jwk obj = do numbers ← public_numbers_at obj; c.make_rsa_public_key numbers

  unfoldable pub rsa_from_jwk : Dict → Result (Key O)
  unfolding private_from_jwk public_from_jwk
  rsa_from_jwk obj = do
    raise_if (not (eq_str (get obj "kty") "RSA")) invalid_key_error "Not an RSA key"
    key ←
        (if has obj "d" && (has obj "e" && has obj "n")
          then private_from_jwk obj
          else if has obj "n" && has obj "e"
          then public_from_jwk obj
          else raise invalid_key_error "Not a public or private key")
    ok (object key)
