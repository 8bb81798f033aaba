-- ===== src/Jws/SigningLaws.antt =====
-- What `PyJWS.encode` of jwt/api_jws.py did to make a token, and when `_verify_signature` accepts.
use pyjwt.Prelude.{
  Bool, true, false, ◌≡◌, refl, ap, Option, none, some, String, List, [], ◌∷◌, ◌++◌, is_in, ◌==◌,
}
use pyjwt.Errors.{ok}
use pyjwt.Errors.Bind.{>>=-eq-ok, ok-injective}
use pyjwt.Value.{Value, Dict, str, dict, lookup}
use pyjwt.Value.DictLaws.{IsUnique, SameEntries, or_found}
use pyjwt.Utils.Text.{Bytes}
use pyjwt.Utils.Base64.{base64url_encode}
use pyjwt.Algorithms.{Algorithm, Key}
use pyjwt.Jws.State.{PyJws, get_algorithm_by_name}
use pyjwt.Jws.Load.{Json, dot}
use pyjwt.Jws.LoadLaws.{join}
use pyjwt.Jws.Verify.{
  KeyArg, plain, is_empty_or_none, not_allowed, allowed_algorithms, Warning, algorithm_of_value,
  choose, check_key_length, verify_signature,
}
use pyjwt.Jws.Encode.{Encoded, make_header, sign_segments}
use pyjwt.Jws.HeaderLaws.{lookup-make_header}

pub not_empty :
    (name : String) (algs : List String)
    → is_in name algs ≡ true
    → is_empty_or_none (some algs) ≡ false
not_empty name [] h = cc
not_empty name (a ∷ algs) h = refl

or_found-none : (o : Option Value) → or_found o none ≡ o
or_found-none none = refl
or_found-none (some v) = refl

-- The entries of the header that decoding looks at.
pub header_facts :
    (name : String) (given header' : Dict)
    → IsUnique given
    → lookup "alg" given ≡ none
    → lookup "crit" given ≡ none
    → SameEntries header' (make_header (str name) given false)
    → (lookup "alg" header' ≡ some (str name))
      × (lookup "kid" header' ≡ lookup "kid" given)
      × (lookup "crit" header' ≡ none)
      × (lookup "b64" header' ≡ none)
header_facts name given header' unique no_alg no_crit same =
    let (entries, b64) = lookup-make_header (str name) given false unique in
    (
      rw (same "alg", entries "alg" refl refl, no_alg),
      rw (same "kid", entries "kid" refl refl, or_found-none),
      rw (same "crit", entries "crit" refl refl, no_crit),
      rw (same "b64", b64),
    )

module _ {O : Type 0} (has_crypto : Bool) (json : Json) (jws : PyJws O) where
  -- What `encode` did to make a token that carries its payload.
  pub record IsSigned (payload : Bytes) (key : Key O) (name : String) (header : Dict)
      (sort_headers : Bool) (e : Encoded) : Type 0 where
    pub json_header : Bytes
    pub handler : Algorithm O
    pub prepared_key : Key O
    pub signature : Bytes
    pub dumped : json.dumps sort_headers (dict header) ≡ ok json_header
    pub found : get_algorithm_by_name has_crypto jws name ≡ ok handler
    pub prepared : handler.prepare_key key ≡ ok prepared_key
    pub signed :
        handler.sign (base64url_encode json_header ++ dot ∷ base64url_encode payload) prepared_key
        ≡ ok signature
    pub token : join json_header payload signature ≡ e.token

  pub sign_segments-IsSigned :
      (payload : Bytes) (key : Key O) (name : String) (header : Dict) (sort_headers : Bool)
      (e : Encoded)
      → sign_segments has_crypto json jws payload (plain key) (str name) header false sort_headers
        ≡ ok e
      → IsSigned payload key name header sort_headers e
  unfolding sign_segments algorithm_of_value
  sign_segments-IsSigned payload key name header sort_headers e h =
      let (jh, e1, h1) = >>=-eq-ok (json.dumps sort_headers (dict header)) _ h in
      let (a, e2, h2) = >>=-eq-ok (get_algorithm_by_name has_crypto jws name) _ h1 in
      let (k, e3, h3) = >>=-eq-ok (a.prepare_key key) _ h2 in
      let (ws, e4, h4) = >>=-eq-ok (check_key_length jws a k) _ h3 in
      let (sig, e5, h5) =
        >>=-eq-ok (a.sign (base64url_encode jh ++ dot ∷ base64url_encode payload) k) _ h4 in
      record {
        json_header = jh;
        handler = a;
        prepared_key = k;
        signature = sig;
        dumped = e1;
        found = e2;
        prepared = e3;
        signed = e5;
        token = ap (λ (r : Encoded). r.token) (ok-injective h5);
      }

  pub verify_signature-accepts :
      (si : Bytes) (header : Dict) (sig : Bytes) (arg : KeyArg O) (k : Key O)
      (algorithms : Option (List String)) (name : String) (handler : Algorithm O)
      (ws : List Warning)
      → lookup "alg" header ≡ some (str name)
      → (name == "") ≡ false
      → not_allowed (allowed_algorithms algorithms arg) (str name) ≡ false
      → choose has_crypto jws arg (str name) ≡ ok (handler, k)
      → check_key_length jws handler k ≡ ok ws
      → handler.verify si k sig ≡ ok true
      → verify_signature has_crypto jws si header sig arg algorithms ≡ ok ws
  unfolding verify_signature
  verify_signature-accepts si header sig arg k algorithms name handler ws e1 e2 e3 e4 e5 e6 =
      rw (e1, e2, e3, e4, e5, e6)
