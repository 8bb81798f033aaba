-- ===== src/Jws/VerifyLaws.antt =====
-- What a successful `decode_complete` of jwt/api_jws.py has established.
use pyjwt.Prelude.{
  Bool, true, false, ◌≡◌, ap, sym, ◌∙◌, ◌||◌, ◌&&◌, not, Option, none, some, String, List, arith,
}
use mathlib.Core.Path.{subst}
use pyjwt.Errors.{ok, decode_error}
use pyjwt.Errors.Bind.{>>=-eq-ok, raise_if-eq-ok, ok-injective}
use pyjwt.Value.{Value, Dict, lookup, truthy}
use pyjwt.Utils.Text.{Bytes, Text}
use pyjwt.Algorithms.{Algorithm, Key}
use pyjwt.Jws.State.{PyJws, SomeSigOptions, merge_sig_options}
use pyjwt.Jws.Load.{Json, Loaded, load}
use pyjwt.Jws.Headers.{validate_headers}
use pyjwt.Jws.Coverage.{Covers, attach-Covers}
use pyjwt.Jws.Verify.{
  KeyArg, Warning, Decoded, is_empty_or_none, is_jwk, not_allowed, alg_header, allowed_algorithms,
  choose, check_key_length, verify_signature, attach, decode_loaded, decode_complete,
}

module _ {O : Type 0} (has_crypto : Bool) (jws : PyJws O) where
  -- The header names an allowed algorithm, and the signature was checked by the one that was chosen.
  pub record IsVerified (signing_input : Bytes) (header : Dict) (signature : Bytes) (key : KeyArg O)
      (algorithms : Option (List String)) : Type 0 where
    pub alg : Value
    pub algorithm : Algorithm O
    pub prepared_key : Key O
    pub named : lookup "alg" header ≡ some alg
    pub is_truthy : truthy alg ≡ true
    pub is_allowed : not_allowed (allowed_algorithms algorithms key) alg ≡ false
    pub chosen : choose has_crypto jws key alg ≡ ok (algorithm, prepared_key)
    pub verified : algorithm.verify signing_input prepared_key signature ≡ ok true

alg_header-eq-ok : (o : Option Value) (v : Value) → alg_header o ≡ ok v → o ≡ some v
alg_header-eq-ok none v h = cc
alg_header-eq-ok (some w) v h = cc

eq-true_of_not : (b : Bool) → not b ≡ false → b ≡ true
eq-true_of_not b h = ground arith

||-eq-false : (a b : Bool) → (not a || b) ≡ false → (a ≡ true) × (b ≡ false)
||-eq-false a b h = ground arith

module _ {O : Type 0} (has_crypto : Bool) (jws : PyJws O) where
  verify_signature-IsVerified :
      (signing_input : Bytes) (header : Dict) (signature : Bytes) (key : KeyArg O)
      (algorithms : Option (List String)) (ws : List Warning)
      → verify_signature has_crypto jws signing_input header signature key algorithms ≡ ok ws
      → IsVerified has_crypto jws signing_input header signature key algorithms
  unfolding verify_signature
  verify_signature-IsVerified si header sig key algorithms ws h =
      let (alg, e1, h1) = >>=-eq-ok (alg_header (lookup "alg" header)) _ h in
      let (e2, h2) = raise_if-eq-ok _ _ _ _ h1 in
      let ((a, k), e3, h3) = >>=-eq-ok (choose has_crypto jws key alg) _ h2 in
      let (ws', e4, h4) = >>=-eq-ok (check_key_length jws a k) _ h3 in
      let (v, e5, h5) = >>=-eq-ok (a.verify si k sig) _ h4 in
      let (e6, h6) = raise_if-eq-ok (not v) _ _ _ h5 in
      let (t, n) = ||-eq-false (truthy alg) _ e2 in
      record {
        alg = alg;
        algorithm = a;
        prepared_key = k;
        named = alg_header-eq-ok _ alg e1;
        is_truthy = t;
        is_allowed = n;
        chosen = e3;
        verified = e5 ∙ ap ok (eq-true_of_not v e6);
      }

  -- What a decoded message rests on.
  pub record IsSound (json : Json) (jwt : Text) (key : KeyArg O) (algorithms : Option (List String))
      (detached_payload : Option Bytes) (d : Decoded) : Type 0 where
    pub loaded : Loaded
    pub signing_input : Bytes
    pub is_loaded : load json jwt ≡ ok loaded
    pub headers_valid : validate_headers loaded.header false ≡ ok tt
    pub covers : Covers loaded detached_payload d.payload signing_input
    pub same_header : d.header ≡ loaded.header
    pub same_signature : d.signature ≡ loaded.signature
    pub is_verified :
        IsVerified has_crypto jws signing_input loaded.header loaded.signature key algorithms

  decode_loaded-IsSound :
      (json : Json) (jwt : Text) (key : KeyArg O) (algorithms : Option (List String))
      (detached_payload : Option Bytes) (l : Loaded) (d : Decoded)
      → load json jwt ≡ ok l
      → decode_loaded has_crypto true jws key algorithms detached_payload l ≡ ok d
      → IsSound json jwt key algorithms detached_payload d
  unfolding decode_loaded
  decode_loaded-IsSound json jwt key algorithms detached_payload l d e h =
      let (u, e2, h2) = >>=-eq-ok (validate_headers l.header false) _ h in
      let ((p, si), e3, h3) = >>=-eq-ok (attach l detached_payload) _ h2 in
      let (ws, e4, h4) =
        >>=-eq-ok (verify_signature has_crypto jws si l.header l.signature key algorithms) _ h3 in
      let same = ok-injective h4 in
      record {
        loaded = l;
        signing_input = si;
        is_loaded = e;
        headers_valid = e2;
        covers =
            attach-Covers json jwt l detached_payload d.payload si e
              (e3 ∙ ap (λ (r : Decoded). ok (r.payload, si)) same);
        same_header = ap (λ (r : Decoded). r.header) (sym same);
        same_signature = ap (λ (r : Decoded). r.signature) (sym same);
        is_verified = verify_signature-IsVerified si l.header l.signature key algorithms ws e4;
      }

  -- If `decode_complete` returns and the merged "verify_signature" is on, then the token was
  -- loaded, its headers are valid, and the signature of what is returned was accepted, over the
  -- token's own first two segments, or with "b64" false its first and the detached payload, which is
  -- then what is returned. The header names an
  -- algorithm that is allowed, and the accepting one is that of the PyJWK, if one was passed, or else
  -- the named one.
  pub decode_complete-IsSound :
      (json : Json) (jwt : Text) (key : KeyArg O) (algorithms : Option (List String))
      (options : Option SomeSigOptions) (detached_payload : Option Bytes) (d : Decoded)
      → (merge_sig_options jws.options options).verify_signature ≡ true
      → decode_complete has_crypto json jws jwt key algorithms options detached_payload ≡ ok d
      → IsSound json jwt key algorithms detached_payload d
  unfolding decode_complete
  decode_complete-IsSound json jwt key algorithms options detached_payload d on h =
      let verify = (merge_sig_options jws.options options).verify_signature in
      let (_, h0) =
        raise_if-eq-ok (verify && is_empty_or_none algorithms && not (is_jwk key)) decode_error _ _
          h in
      let (l, e1, h1) = >>=-eq-ok (load json jwt) _ h0 in
      decode_loaded-IsSound json jwt key algorithms detached_payload l d e1
        (subst (λ v. decode_loaded has_crypto v jws key algorithms detached_payload l ≡ ok d) on h1)
