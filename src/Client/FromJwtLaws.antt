-- ===== src/Client/FromJwtLaws.antt =====
-- Which key `get_signing_key_from_jwt` of jwt/jwks_client.py returns.
use mathlib.Core.Path.{subst}
use pyjwt.Prelude.{
  Bool, false, ◌≡◌, refl, ap, sym, ◌&&◌, not, List, [], Option, some, String, if◌then◌else◌,
}
use pyjwt.Prelude.Int.{ℤ}
use pyjwt.Errors.{Result, ok, err, decode_error}
use pyjwt.Errors.Bind.{>>=-eq-ok, raise_if-eq-ok, ok-injective}
use pyjwt.Value.{Value, Dict, get}
use pyjwt.Utils.Text.{Bytes, Text}
use pyjwt.Jws.State.{PyJws, SomeSigOptions, merge_sig_options}
use pyjwt.Jwt.Options.{Options, merge_options}
use pyjwt.Jwt.Claims.{Expected, validate_claims}
use pyjwt.Algorithms.{Backend}
use pyjwt.Jwk.{PyJwk}
use pyjwt.Jws.Load.{Json, Loaded, load}
use pyjwt.Jws.Headers.{validate_headers}
use pyjwt.Jws.Verify
use pyjwt.Jws.Verify.{KeyArg, is_empty_or_none, is_jwk, attach, verify_signature, decode_loaded}
use pyjwt.Jwt.Decode.{
  PyJwt, DecodedJwt, decode_payload, wants_signature, sig_options, check_decoded, decode_complete,
}
use pyjwt.Client.Fetch.{PyJwkClient, Request, get_signing_key}
use pyjwt.Client.FetchLaws.{IsSource, IsFound, get_signing_key-IsFound}
use pyjwt.Client.FromJwt.{kid_of, unverified, key_of_header, get_signing_key_from_jwt}

-- Where the header of a decoded message comes from.
pub record IsHeaderOf (json : Json) (token : Text) (header : Dict) : Type 0 where
  pub loaded : Loaded
  pub is_loaded : load json token ≡ ok loaded
  pub headers_valid : validate_headers loaded.header false ≡ ok tt
  pub same : loaded.header ≡ header

module _ {O : Type 0} (has_crypto : Bool) (json : Json) where
  decode_loaded-header :
      (verify : Bool) (jws : PyJws O) (key : KeyArg O) (algorithms : Option (List String))
      (detached_payload : Option Bytes) (l : Loaded) (d : Verify.Decoded)
      → decode_loaded has_crypto verify jws key algorithms detached_payload l ≡ ok d
      → (validate_headers l.header false ≡ ok tt) × (l.header ≡ d.header)
  unfolding decode_loaded
  decode_loaded-header verify jws key algorithms detached_payload l d h =
      let (_, e1, h1) = >>=-eq-ok (validate_headers l.header false) _ h in
      let ((p, si), e2, h2) = >>=-eq-ok (attach l detached_payload) _ h1 in
      let (ws, e3, h3) =
        >>=-eq-ok
          (if verify
            then verify_signature has_crypto jws si l.header l.signature key algorithms
            else ok [])
          _ h2 in
      (e1, ap (λ (r : Verify.Decoded). r.header) (ok-injective h3))

  jws-header :
      (jws : PyJws O) (token : Text) (key : KeyArg O) (algorithms : Option (List String))
      (options : Option SomeSigOptions) (detached_payload : Option Bytes) (d : Verify.Decoded)
      → Verify.decode_complete has_crypto json jws token key algorithms options detached_payload
        ≡ ok d
      → IsHeaderOf json token d.header
  unfolding Verify.decode_complete
  jws-header jws token key algorithms options detached_payload d h =
      let verify = (merge_sig_options jws.options options).verify_signature in
      let (_, h0) =
        raise_if-eq-ok (verify && is_empty_or_none algorithms && not (is_jwk key)) decode_error _ _
          h in
      let (l, e1, h1) = >>=-eq-ok (load json token) _ h0 in
      let (valid, same) = decode_loaded-header verify jws key algorithms detached_payload l d h1 in
      record { loaded = l; is_loaded = e1; headers_valid = valid; same = same }

  pub jwt-header :
      (jwt : PyJwt O) (token : Text) (key : KeyArg O) (algorithms : Option (List String))
      (options : Option Options) (verify : Option Bool) (detached_payload : Option Bytes)
      (expected : Expected) (now : ℤ) (d : DecodedJwt)
      → decode_complete has_crypto json jwt token key algorithms options verify detached_payload
          expected now
        ≡ ok d
      → IsHeaderOf json token d.header
  unfolding decode_complete check_decoded
  jwt-header jwt token key algorithms options verify detached_payload expected now d h =
      let sig = some (sig_options (wants_signature options)) in
      let (m, e1, h1) =
        >>=-eq-ok
          (Verify.decode_complete has_crypto json jwt.jws token key algorithms sig detached_payload)
          _ h in
      let (p, e2, h2) = >>=-eq-ok (decode_payload json m.payload) _ h1 in
      let (_, e3, h3) =
        >>=-eq-ok (validate_claims p (merge_options jwt.options options).0 expected now) _ h2 in
      subst (IsHeaderOf json token) (ap (λ (r : DecodedJwt). r.header) (ok-injective h3))
        (jws-header jwt.jws token key algorithms sig detached_payload m e1)

module _ {O : Type 0} (b : Backend O) (json : Json) (jwt : PyJwt O) where
  -- The token that was read, and the key that answers its header.
  pub record IsKeyFor (client : PyJwkClient) (token : Text) (now : ℤ) (first second : Request)
      (k : PyJwk O) : Type 0 where
    pub loaded : Loaded
    pub answer : Value
    pub is_loaded : load json token ≡ ok loaded
    pub headers_valid : validate_headers loaded.header false ≡ ok tt
    pub source : IsSource client now first second answer
    pub found : IsFound b answer (kid_of (get loaded.header "kid")) k

  key_of_header-eq-ok :
      (r : Result DecodedJwt) (client : PyJwkClient) (now : ℤ) (first second : Request)
      (k : PyJwk O)
      → (key_of_header b json jwt r client now first second).0 ≡ ok k
      → (d : DecodedJwt) × (r ≡ ok d)
        × ((get_signing_key b client (kid_of (get d.header "kid")) now first second).0 ≡ ok k)
  key_of_header-eq-ok (err e) client now first second k h = cc
  key_of_header-eq-ok (ok d) client now first second k h = (d, refl, h)

  -- A key that `get_signing_key_from_jwt` returns from a client without `cache_keys` belongs to a
  -- token that was loaded with valid headers: it is a signing key with the "kid" of its header, of
  -- the set made from the cached data or from the answer to one of the two requests.
  pub get_signing_key_from_jwt-IsKeyFor :
      (client : PyJwkClient) (token : Text) (clock now : ℤ) (first second : Request) (k : PyJwk O)
      → (get_signing_key_from_jwt b json jwt client token clock now first second).0 ≡ ok k
      → IsKeyFor client token now first second k
  unfolding get_signing_key_from_jwt
  get_signing_key_from_jwt-IsKeyFor client token clock now first second k h =
      let (d, e, h1) =
        key_of_header-eq-ok (unverified b json jwt token clock) client now first second k h in
      let (v, source, found) =
        get_signing_key-IsFound b client (kid_of (get d.header "kid")) now first second k h1 in
      let r = jwt-header b.has_crypto json jwt token _ _ _ _ _ _ clock d e in
      record {
        loaded = r.loaded;
        answer = v;
        is_loaded = r.is_loaded;
        headers_valid = r.headers_valid;
        source = source;
        found = subst (λ (x : Dict). IsFound b v (kid_of (get x "kid")) k) (sym r.same) found;
      }
