-- ===== src/Tests/Fixtures.antt =====
-- Concrete inputs: a key, a JSON codec for two documents, a `PyJWS` and a `PyJWT`, and a token.
use pyjwt.Prelude.{
  ◌%◌, false, Option, none, some, String, List, [], ◌∷◌, length, nat_eq, if◌then◌else◌,
}
use pyjwt.Prelude.Int.{ℤ, pos}
use pyjwt.Errors.{Result, ok, raise, json_decode_error}
use pyjwt.Value.{Value, Dict, empty, entry, str, int, dict, has}
use pyjwt.Utils.Text.{Bytes, Text}
use pyjwt.Algorithms.{Key, secret, Hash, Backend, none_algorithm, sha256, hmac_algorithm, Algorithm}
use pyjwt.Jws.State
use pyjwt.Jws.State.{PyJws}
use pyjwt.Jws.Load.{Json}
use pyjwt.Jws.Verify.{Warning, insecure_key_length}
use pyjwt.Jwt.Claims.{Expected, unspecified, one, number}
use pyjwt.Jwt.Decode
use pyjwt.Jwt.Decode.{PyJwt}

-- A keyed digest that is easy to compute.
abbrev pub digest : Hash → Bytes → Bytes → Bytes
digest h key msg = length key % 256 ∷ length msg % 256 ∷ []

abbrev pub backend : Backend (Unit {0})
backend = record {
  has_crypto = false;
  hmac = digest;
  rsa = λ h. none_algorithm;
  ec = λ h curve. none_algorithm;
  rsa_pss = λ h. none_algorithm;
  okp = none_algorithm;
}

abbrev pub hs256 : Algorithm (Unit {0})
hs256 = hmac_algorithm digest sha256

abbrev pub key : Key (Unit {0})
key = secret (Text.bytes (b's' ∷ []))

abbrev pub header : Dict
header = entry "typ" (str "JWT") (entry "alg" (str "HS256") empty)

abbrev pub claims : Dict
claims = entry "sub" (str "ann") (entry "exp" (int (pos 20)) (entry "aud" (str "web") empty))

-- The header is written as "h", the claims as "p"; "n" and "k" are headers that name "none",
-- the second with a "kid".
abbrev write : Value → Result Bytes
write (dict d) = if has d "alg" then ok (b'h' ∷ []) else ok (b'p' ∷ [])
write _ = ok []

abbrev pub none_header : Dict
none_header = entry "alg" (str "none") empty

abbrev pub kid_header : Dict
kid_header = entry "alg" (str "none") (entry "kid" (str "a") empty)

abbrev read : Bytes → Result Value
read [] = raise json_decode_error "Expecting value"
read (c ∷ cs) =
    if nat_eq c b'h'
    then ok (dict header)
    else if nat_eq c b'n'
    then ok (dict none_header)
    else if nat_eq c b'k'
    then ok (dict kid_header)
    else ok (dict claims)

abbrev pub codec : Json
codec = record { loads = read; dumps = λ sort_keys v. write v }

abbrev pub jws : PyJws (Unit {0})
jws = State.init backend none none

abbrev pub jwt : PyJwt (Unit {0})
jwt = (Decode.init backend none).0

-- "aA.cA.AQU"
abbrev pub token_bytes : Bytes
token_bytes = b'a' ∷ b'A' ∷ b'.' ∷ b'c' ∷ b'A' ∷ b'.' ∷ b'A' ∷ b'Q' ∷ b'U' ∷ []

abbrev pub token : Text
token = Text.bytes token_bytes

abbrev pub algorithms : Option (List String)
algorithms = some ("HS256" ∷ [])

-- "web" is asked for, at time 10.
abbrev pub expected : Expected
expected = record {
  audience = one "web";
  issuer = unspecified;
  subject = none;
  leeway = number (pos 0);
}

abbrev pub now : ℤ
now = pos 10_000_000

-- The key has one byte.
abbrev pub weak_key : List Warning
weak_key = insecure_key_length "The HMAC key is below the minimum recommended length" ∷ []
