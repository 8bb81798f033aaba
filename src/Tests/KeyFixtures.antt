-- ===== src/Tests/KeyFixtures.antt =====
-- Concrete tokens under keys of the small key package, for jwt/api_jws.py.
use pyjwt.Prelude.{none, String, [], ◌∷◌, ◌++◌}
use pyjwt.Errors.{ok}
use pyjwt.Value.{Dict, empty, entry, str, dict}
use pyjwt.Utils.Text.{Bytes}
use pyjwt.Utils.KeyFormats.{codes}
use pyjwt.Algorithms.{secp256r1}
use pyjwt.Algorithms.Crypto.{ed25519}
use pyjwt.Algorithms.Backends.{with_cryptography}
use pyjwt.Jws.State
use pyjwt.Jws.State.{PyJws}
use pyjwt.Jws.Load.{Json}
use pyjwt.Jws.Verify.{Decoded}
use pyjwt.Tests.Fixtures.{digest}
use pyjwt.Tests.SmallKeys.{
  SmallKey, small, rsa_private, rsa_public, ec_public, ed_private, ed_public,
}

abbrev pub key_header : String → Dict
key_header name = entry "typ" (str "JWT") (entry "alg" (str name) empty)

-- A codec for one header, written as "h".
abbrev pub key_codec : String → Json
key_codec name = record {
  loads = λ bs. ok (dict (key_header name));
  dumps = λ sort_keys v. ok (b'h' ∷ []);
}

abbrev pub key_jws : PyJws SmallKey
key_jws = State.init (with_cryptography small digest) none none

abbrev pub rsa_public_key : SmallKey
rsa_public_key = rsa_public (record { e = 3; n = 7 })

abbrev pub rsa_private_key : SmallKey
rsa_private_key = rsa_private (record {
  p = 1;
  q = 7;
  d = 1;
  dmp1 = 1;
  dmq1 = 1;
  iqmp = 1;
  public_numbers = record { e = 3; n = 7 };
})

abbrev pub ec_public_key : SmallKey
ec_public_key = ec_public secp256r1 5 5

abbrev pub ed_private_key : SmallKey
ed_private_key = ed_private ed25519 5

abbrev pub ed_public_key : SmallKey
ed_public_key = ed_public ed25519 5

-- A token with the payload "p".
abbrev pub signed : String → Bytes
signed signature = codes "aA.cA." ++ codes signature

abbrev pub rsa_token : Bytes
rsa_token = signed "SA"

abbrev pub ec_token : Bytes
ec_token =
    signed "AAAAAAAAAAAAAAAAAAAAAAAAAAAAAAAAAAAAAAAAAAEAAAAAAAAAAAAAAAAAAAAAAAAAAAAAAAAAAAAAAAAARg"

abbrev pub ed_token : Bytes
ed_token = signed "Rg"

abbrev pub key_message : String → Bytes → Decoded
key_message name signature = record {
  payload = b'p' ∷ [];
  header = key_header name;
  signature = signature;
  warnings = [];
}

abbrev zeros : Bytes
zeros =
    0 ∷ 0 ∷ 0 ∷ 0 ∷ 0 ∷ 0 ∷ 0 ∷ 0 ∷ 0 ∷ 0 ∷ 0 ∷ 0 ∷ 0 ∷ 0 ∷ 0 ∷ 0 ∷ 0 ∷ 0 ∷ 0 ∷ 0 ∷ 0 ∷ 0 ∷ 0 ∷ 0
    ∷ 0 ∷ 0 ∷ 0 ∷ 0 ∷ 0 ∷ 0 ∷ 0 ∷ []

-- The numbers 1 and 70 in 32 bytes each.
abbrev pub ec_signature : Bytes
ec_signature = zeros ++ 1 ∷ (zeros ++ 70 ∷ [])
