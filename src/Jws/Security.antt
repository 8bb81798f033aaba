-- ===== src/Jws/Security.antt =====
-- What verification in jwt/api_jws.py guards against: unsigned tokens and forged HMAC signatures.
use mathlib.Core.Path.{subst}
use pyjwt.Prelude.{some-eq, Bool, true, false, ◌≡◌, ◌≢◌, ap, sym, ◌∙◌, Option, some, String, List}
use pyjwt.Prelude.Assoc.{find}
use pyjwt.Errors.{ok}
use pyjwt.Errors.Bind.{>>=-eq-ok, ok-injective}
use pyjwt.Value.{Value, Dict, lookup, str}
use pyjwt.Utils.Text.{Bytes, Text, force_bytes}
use pyjwt.Utils.KeyFormats.{is_pem_format, is_ssh_key}
use pyjwt.Algorithms.{
  Algorithm, Key, Hash, text_of, none_algorithm, hmac_algorithm, hmac_sign, hmac_verify,
}
use pyjwt.Algorithms.HmacLaws.{prepare_hmac_key-eq-ok, hmac_verify-hmac_sign}
use pyjwt.Jws.State.{PyJws, SomeSigOptions, merge_sig_options, get_algorithm_by_name}
use pyjwt.Jws.Load.{Json, Loaded, load}
use pyjwt.Jws.Verify.{plain, Decoded, algorithm_of_value, choose, decode_complete}
use pyjwt.Jws.Coverage.{Covers}
use pyjwt.Jws.VerifyLaws.{IsSound, decode_complete-IsSound}

module _ {O : Type 0} (has_crypto : Bool) (jws : PyJws O) where
  -- The handler of the name is the one in the table.
  choose-plain :
      (key : Key O) (name : String) (alg a : Algorithm O) (k : Key O)
      → find name jws.algorithms ≡ some alg
      → choose has_crypto jws (plain key) (str name) ≡ ok (a, k)
      → (alg ≡ a) × (alg.prepare_key key ≡ ok k)
  unfolding choose algorithm_of_value get_algorithm_by_name
  choose-plain key name alg a k f h =
      let h' = rw f at h in
      let (k', e, h2) = >>=-eq-ok (alg.prepare_key key) _ h' in
      let same = ok-injective h2 in
      (
        ap (λ (p : Algorithm O × Key O). p.0) same,
        e ∙ ap (λ (p : Algorithm O × Key O). ok p.1) same,
      )

  -- The handler in the table prepared the key and accepted the signature.
  IsSound-plain :
      (json : Json) (jwt : Text) (key : Key O) (algorithms : Option (List String))
      (detached_payload : Option Bytes) (d : Decoded) (name : String) (handler : Algorithm O)
      (s : IsSound has_crypto jws json jwt (plain key) algorithms detached_payload d)
      → find name jws.algorithms ≡ some handler
      → lookup "alg" d.header ≡ some (str name)
      → (k : Key O) × (handler.prepare_key key ≡ ok k)
        × (handler.verify s.signing_input k s.loaded.signature ≡ ok true)
  IsSound-plain json jwt key algorithms detached_payload d name handler s f alg =
      let v = s.is_verified in
      let same_alg =
        some-eq (sym v.named ∙ ap (λ (x : Dict). lookup "alg" x) (sym s.same_header) ∙ alg) in
      let chosen =
        subst
          (λ (x : Value). choose has_crypto jws (plain key) x ≡ ok (v.algorithm, v.prepared_key))
          same_alg v.chosen in
      let (same, prepared) = choose-plain key name handler v.algorithm v.prepared_key f chosen in
      (
        v.prepared_key,
        prepared,
        subst
            (λ (a : Algorithm O).
              a.verify s.signing_input v.prepared_key s.loaded.signature ≡ ok true)
            (sym same) v.verified,
      )

  -- The token was loaded, and the message is its payload or the detached one; `signing_input` is what
  -- was signed.
  pub record IsOver (json : Json) (jwt : Text) (detached_payload : Option Bytes) (d : Decoded)
      (signing_input : Bytes) : Type 0 where
    pub loaded : Loaded
    pub is_loaded : load json jwt ≡ ok loaded
    pub covers : Covers loaded detached_payload d.payload signing_input

  -- What the handler of the algorithm that the header names has prepared and accepted.
  pub record IsAccepted (json : Json) (jwt : Text) (key : Key O) (detached_payload : Option Bytes)
      (d : Decoded) (handler : Algorithm O) : Type 0 where
    pub signing_input : Bytes
    pub is_over : IsOver json jwt detached_payload d signing_input
    pub prepared_key : Key O
    pub prepared : handler.prepare_key key ≡ ok prepared_key
    pub verified : handler.verify signing_input prepared_key d.signature ≡ ok true

  pub decode_complete-IsAccepted :
      (name : String) (handler : Algorithm O) (json : Json) (jwt : Text) (key : Key O)
      (algorithms : Option (List String)) (options : Option SomeSigOptions)
      (detached_payload : Option Bytes) (d : Decoded)
      → (merge_sig_options jws.options options).verify_signature ≡ true
      → find name jws.algorithms ≡ some handler
      → lookup "alg" d.header ≡ some (str name)
      → decode_complete has_crypto json jws jwt (plain key) algorithms options detached_payload
        ≡ ok d
      → IsAccepted json jwt key detached_payload d handler
  decode_complete-IsAccepted name handler json jwt key algorithms options detached_payload d on f
        alg e =
      let s =
        decode_complete-IsSound has_crypto jws json jwt (plain key) algorithms options
          detached_payload d on e in
      let (k, prepared, accepted) =
        IsSound-plain json jwt key algorithms detached_payload d name handler s f alg in
      record {
        signing_input = s.signing_input;
        is_over = record { loaded = s.loaded; is_loaded = s.is_loaded; covers = s.covers };
        prepared_key = k;
        prepared = prepared;
        verified =
            subst (λ (sig : Bytes). handler.verify s.signing_input k sig ≡ ok true)
              (sym s.same_signature) accepted;
      }

  -- The key and the signature that HMAC accepted, and what they were computed over.
  pub record IsAuthentic (json : Json) (mac : Bytes → Bytes → Bytes) (jwt : Text) (key : Key O)
      (detached_payload : Option Bytes) (d : Decoded) : Type 0 where
    pub signing_input : Bytes
    pub is_over : IsOver json jwt detached_payload d signing_input
    pub key_bytes : Bytes
    pub is_key : force_bytes (text_of key) ≡ ok key_bytes
    pub no_pem : is_pem_format key_bytes ≡ false
    pub no_ssh : is_ssh_key key_bytes ≡ false
    pub authentic : d.signature ≡ mac key_bytes signing_input

  -- If decoding, with verification on and a key that is no PyJWK, returns a message whose header
  -- names an algorithm that is HMAC in the table, then the signature is the HMAC of the signing
  -- input under the caller's key, and that key is no PEM block and no SSH public key.
  pub decode_complete-hmac :
      (mac : Hash → Bytes → Bytes → Bytes) (h : Hash) (name : String) (json : Json) (jwt : Text)
      (key : Key O) (algorithms : Option (List String)) (options : Option SomeSigOptions)
      (detached_payload : Option Bytes) (d : Decoded)
      → (merge_sig_options jws.options options).verify_signature ≡ true
      → find name jws.algorithms ≡ some (hmac_algorithm mac h)
      → lookup "alg" d.header ≡ some (str name)
      → decode_complete has_crypto json jws jwt (plain key) algorithms options detached_payload
        ≡ ok d
      → IsAuthentic json (mac h) jwt key detached_payload d
  unfolding hmac_sign
  decode_complete-hmac mac h name json jwt key algorithms options detached_payload d on f alg e =
      let a =
        decode_complete-IsAccepted name (hmac_algorithm mac h) json jwt key algorithms options
          detached_payload d on f alg e in
      let (bs, is_key, no_pem, no_ssh, is_bytes) =
        prepare_hmac_key-eq-ok key a.prepared_key a.prepared in
      let signed = (hmac_verify-hmac_sign O mac h a.signing_input bs d.signature).0 (
        subst (λ (k : Key O). hmac_verify mac h a.signing_input k d.signature ≡ ok true) is_bytes
          a.verified) in
      record {
        signing_input = a.signing_input;
        is_over = a.is_over;
        key_bytes = bs;
        is_key = is_key;
        no_pem = no_pem;
        no_ssh = no_ssh;
        authentic = sym (ok-injective signed);
      }

  -- While "none" has its own handler in the table, no token whose header names it is accepted with
  -- verification on and a key that is no PyJWK, even if the caller allows "none".
  pub decode_complete-none :
      (json : Json) (jwt : Text) (key : Key O) (algorithms : Option (List String))
      (options : Option SomeSigOptions) (detached_payload : Option Bytes) (d : Decoded)
      → (merge_sig_options jws.options options).verify_signature ≡ true
      → find "none" jws.algorithms ≡ some none_algorithm
      → decode_complete has_crypto json jws jwt (plain key) algorithms options detached_payload
        ≡ ok d
      → lookup "alg" d.header ≢ some (str "none")
  decode_complete-none json jwt key algorithms options detached_payload d on f e alg =
      let a =
        decode_complete-IsAccepted "none" none_algorithm json jwt key algorithms options
          detached_payload d on f alg e in
      cc (ok-injective a.verified)
