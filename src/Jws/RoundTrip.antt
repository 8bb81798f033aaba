-- ===== src/Jws/RoundTrip.antt =====
-- `decode_complete` of jwt/api_jws.py on what `encode` returns.
use mathlib.Core.Path.{subst}
use pyjwt.Prelude.{
  Bool, true, false, ◌≡◌, refl, sym, ◌∙◌, Option, none, some, String, List, ◌∷◌, ◌++◌, is_in, ◌==◌,
}
use pyjwt.Errors.{ok}
use pyjwt.Errors.Bind.{>>=-eq-ok, ok-injective}
use pyjwt.Value.{Dict, str, lookup}
use pyjwt.Value.DictLaws.{IsUnique, SameEntries}
use pyjwt.Utils.Text.{Bytes, IsBytes, Text}
use pyjwt.Utils.Base64.{base64url_encode}
use pyjwt.Algorithms.{Algorithm, Key}
use pyjwt.Jws.State.{PyJws, SomeSigOptions, merge_sig_options, get_algorithm_by_name}
use pyjwt.Jws.Headers.{validate_headers}
use pyjwt.Jws.Load.{Json, Loaded, dot}
use pyjwt.Jws.LoadLaws.{load-join}
use pyjwt.Jws.Verify.{
  KeyArg, plain, Warning, Decoded, verify_signature, attach, decode_loaded, decode_complete,
}
use pyjwt.Jws.Encode.{named, Encoded, make_header, encode}
use pyjwt.Jws.HeaderLaws.{validate_headers-decoding}
use pyjwt.Jws.SigningLaws.{header_facts, IsSigned, sign_segments-IsSigned, verify_signature-accepts}
use pyjwt.Jws.Matching.{ReadsBack, KeysMatch, ArgMatches, KeysMatch-ArgMatches}

module _ {O : Type 0} (has_crypto : Bool) (json : Json) (jws : PyJws O) where
  decode_loaded-accepts :
      (l : Loaded) (arg : KeyArg O) (algorithms : Option (List String)) (ws : List Warning)
      → validate_headers l.header false ≡ ok tt
      → lookup "b64" l.header ≡ none
      → verify_signature has_crypto jws l.signing_input l.header l.signature arg algorithms ≡ ok ws
      → decode_loaded has_crypto true jws arg algorithms none l
        ≡ ok (record {
          payload = l.payload;
          header = l.header;
          signature = l.signature;
          warnings = ws;
        })
  unfolding decode_loaded attach
  decode_loaded-accepts l arg algorithms ws e1 e2 e3 = rw (e1, e2, e3)

  module _ (payload : Bytes) (given header' : Dict) (name : String) (sort_headers : Bool) where
    -- The header that `encode` makes here.
    abbrev pub made : Dict
    made = make_header (str name) given false

    encode-IsSigned :
        (sign_key : Key O) (e : Encoded)
        → lookup "alg" given ≡ none
        → lookup "b64" given ≡ none
        → encode has_crypto json jws payload
            (plain sign_key)
            (named name)
            (some given)
            false
            sort_headers
          ≡ ok e
        → (validate_headers given true ≡ ok tt)
          × IsSigned has_crypto json jws payload sign_key name made sort_headers e
    unfolding encode
    encode-IsSigned sign_key e no_alg no_b64 h =
        let h' = rw (no_alg, no_b64) at h in
        let (u, e1, h1) = >>=-eq-ok (validate_headers given true) _ h' in
        (
          e1,
          sign_segments-IsSigned has_crypto json jws payload sign_key name made sort_headers e h1,
        )

    -- The round trip for any key argument.
    pub decode_complete-encode_arg :
        (sign_key : Key O) (arg : KeyArg O) (e : Encoded) (algorithms : Option (List String))
        (options : Option SomeSigOptions) (handler : Algorithm O) (ws : List Warning)
        → IsUnique given
        → lookup "alg" given ≡ none
        → lookup "b64" given ≡ none
        → lookup "crit" given ≡ none
        → (name == "") ≡ false
        → IsBytes payload
        → get_algorithm_by_name has_crypto jws name ≡ ok handler
        → ArgMatches has_crypto jws handler sign_key arg algorithms name ws
        → ReadsBack json made header' sort_headers
        → (merge_sig_options jws.options options).verify_signature ≡ true
        → encode has_crypto json jws payload
            (plain sign_key)
            (named name)
            (some given)
            false
            sort_headers
          ≡ ok e
        → (d : Decoded) × (decode_complete has_crypto json jws
              (Text.bytes e.token)
              arg
              algorithms
              options
              none
            ≡ ok d)
          × (d.payload ≡ payload)
          × SameEntries d.header made
          × (d.warnings ≡ ws)
    unfolding decode_complete
    decode_complete-encode_arg sign_key arg e algorithms options handler ws unique no_alg no_b64
          no_crit named_ok are_bytes found match reads on h =
        let (valid, s) = encode-IsSigned sign_key e no_alg no_b64 h in
        let same_handler = ok-injective (sym s.found ∙ found) in
        let prepared =
          subst (λ (a : Algorithm O). a.prepare_key sign_key ≡ ok s.prepared_key) same_handler
            s.prepared in
        let msg = base64url_encode s.json_header ++ dot ∷ base64url_encode payload in
        let signed =
          subst (λ (a : Algorithm O). a.sign msg s.prepared_key ≡ ok s.signature) same_handler
            s.signed in
        let (alg, kid, crit, b64) =
          header_facts name given header' unique no_alg no_crit reads.same in
        let loaded =
          load-join json s.json_header payload s.signature header' (reads.are_bytes _ s.dumped)
            are_bytes (match.are_bytes s.prepared_key msg s.signature prepared signed)
            (reads.reads _ s.dumped) in
        let verified =
          verify_signature-accepts has_crypto json jws msg header' s.signature arg match.prepared
            algorithms name match.algorithm ws alg named_ok match.is_allowed match.chosen
            match.is_long (match.accepts s.prepared_key msg s.signature prepared signed) in
        let accepted =
          decode_loaded-accepts
            (record {
              payload = payload;
              signing_input = msg;
              header = header';
              signature = s.signature;
            })
            arg algorithms ws (validate_headers-decoding given header' tt valid kid crit) b64
            verified in
        (
          record { payload = payload; header = header'; signature = s.signature; warnings = ws },
          rw (on, match.is_given, ← s.token, loaded, accepted),
          refl,
          reads.same,
          refl,
        )

    -- A token that `encode` makes, its payload attached, with a named algorithm and headers
    -- without "alg", "b64" and "crit" and with each key once, decodes with verification on under a
    -- matching key and an algorithm list that has the name: the payload comes back exactly, and
    -- the header with the same entries. The payload is bytes, `json` reads back this header, and
    -- the handler accepts under the second key what it signs under the first.
    pub decode_complete-encode :
        (sign_key verify_key : Key O) (e : Encoded) (algs : List String)
        (options : Option SomeSigOptions) (handler : Algorithm O) (ws : List Warning)
        → IsUnique given
        → lookup "alg" given ≡ none
        → lookup "b64" given ≡ none
        → lookup "crit" given ≡ none
        → (name == "") ≡ false
        → is_in name algs ≡ true
        → IsBytes payload
        → get_algorithm_by_name has_crypto jws name ≡ ok handler
        → KeysMatch jws handler sign_key verify_key ws
        → ReadsBack json made header' sort_headers
        → (merge_sig_options jws.options options).verify_signature ≡ true
        → encode has_crypto json jws payload
            (plain sign_key)
            (named name)
            (some given)
            false
            sort_headers
          ≡ ok e
        → (d : Decoded) × (decode_complete has_crypto json jws
              (Text.bytes e.token)
              (plain verify_key)
              (some algs)
              options
              none
            ≡ ok d)
          × (d.payload ≡ payload)
          × SameEntries d.header made
          × (d.warnings ≡ ws)
    decode_complete-encode sign_key verify_key e algs options handler ws unique no_alg no_b64
          no_crit named_ok allowed are_bytes found match reads on h =
        decode_complete-encode_arg sign_key (plain verify_key) e (some algs) options handler ws
          unique no_alg no_b64 no_crit named_ok are_bytes found
          (KeysMatch-ArgMatches has_crypto jws handler sign_key verify_key algs name ws allowed
            found match)
          reads on h
