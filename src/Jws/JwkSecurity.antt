-- ===== src/Jws/JwkSecurity.antt =====
-- What verification in jwt/api_jws.py establishes with a PyJWK as the key.
use mathlib.Core.Path.{subst}
use pyjwt.Prelude.{
  Bool, true, false, not, ◌≡◌, ap, sym, ◌∙◌, Option, none, some, String, List, [], ◌∷◌, eq_iff,
  arith,
}
use pyjwt.Errors.{ok}
use pyjwt.Errors.Bind.{ok-injective}
use pyjwt.Value.{Value, Dict, lookup, str, value_in}
use pyjwt.Utils.Text.{Bytes, Text}
use pyjwt.Algorithms.{Algorithm, Key}
use pyjwt.Jwk.{PyJwk}
use pyjwt.Jws.State.{PyJws, SomeSigOptions, merge_sig_options}
use pyjwt.Jws.Load.{Json}
use pyjwt.Jws.Verify.{jwk, Decoded, not_allowed, allowed_algorithms, choose, decode_complete}
use pyjwt.Jws.VerifyLaws.{decode_complete-IsSound}
use pyjwt.Jws.Security.{IsOver}

eq_of_in_one :
    (alg : Value) (name : String) → not (value_in alg (name ∷ [])) ≡ false → alg ≡ str name
eq_of_in_one (str s) name h = ground (arith, eq_iff name s)
eq_of_in_one _ name h = cc

-- The name in the header is in the caller's list, or is the key's own if there is no list.
abbrev pub IsNamed : {O : Type 0} → PyJwk O → Option (List String) → Value → Type 0
IsNamed k none alg = alg ≡ str k.algorithm_name
IsNamed k (some names) alg = value_in alg names ≡ true

allowed-IsNamed :
    {O : Type 0} (k : PyJwk O) (algorithms : Option (List String)) (alg : Value)
    → not_allowed (allowed_algorithms algorithms (jwk k)) alg ≡ false
    → IsNamed k algorithms alg
allowed-IsNamed k none alg h = eq_of_in_one alg k.algorithm_name h
allowed-IsNamed k (some names) alg h = ground arith

module _ {O : Type 0} (has_crypto : Bool) (jws : PyJws O) where
  -- The algorithm and the key of the PyJWK accepted the signature.
  pub record IsJwkAuthentic (json : Json) (jwt : Text) (k : PyJwk O)
      (algorithms : Option (List String)) (detached_payload : Option Bytes) (d : Decoded)
      : Type 0 where
    pub signing_input : Bytes
    pub is_over : IsOver has_crypto jws json jwt detached_payload d signing_input
    pub alg : Value
    pub in_header : lookup "alg" d.header ≡ some alg
    pub is_named : IsNamed k algorithms alg
    pub verified : k.algorithm.verify signing_input k.key d.signature ≡ ok true

  -- If decoding, with verification on and a PyJWK as the key, returns a message, then the algorithm and
  -- the key of the PyJWK accepted the signature over the signing input, whatever algorithm the header
  -- names; that name is in the caller's list, or is that of the PyJWK's algorithm if there is no list.
  pub decode_complete-jwk :
      (json : Json) (jwt : Text) (k : PyJwk O) (algorithms : Option (List String))
      (options : Option SomeSigOptions) (detached_payload : Option Bytes) (d : Decoded)
      → (merge_sig_options jws.options options).verify_signature ≡ true
      → decode_complete has_crypto json jws jwt (jwk k) algorithms options detached_payload ≡ ok d
      → IsJwkAuthentic json jwt k algorithms detached_payload d
  unfolding choose
  decode_complete-jwk json jwt k algorithms options detached_payload d on e =
      let s =
        decode_complete-IsSound has_crypto jws json jwt (jwk k) algorithms options detached_payload
          d on e in
      let v = s.is_verified in
      let same = ok-injective v.chosen in
      let accepted =
        subst
          (λ (p : Algorithm O × Key O). p.0.verify s.signing_input p.1 s.loaded.signature ≡ ok true)
          (sym same) v.verified in
      record {
        signing_input = s.signing_input;
        is_over = record { loaded = s.loaded; is_loaded = s.is_loaded; covers = s.covers };
        alg = v.alg;
        in_header = ap (λ (x : Dict). lookup "alg" x) s.same_header ∙ v.named;
        is_named = allowed-IsNamed k algorithms v.alg v.is_allowed;
        verified =
            subst (λ (sig : Bytes). k.algorithm.verify s.signing_input k.key sig ≡ ok true)
              (sym s.same_signature) accepted;
      }
