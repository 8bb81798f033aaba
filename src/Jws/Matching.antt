-- ===== src/Jws/Matching.antt =====
-- When the key that `encode` of jwt/api_jws.py signs with and the key argument of its
-- `decode_complete` match, and when the header it writes is read back.
use pyjwt.Prelude.{Bool, true, false, ◌≡◌, Option, some, String, List, is_in, ◌&&◌, not}
use pyjwt.Errors.{ok}
use pyjwt.Value.{Dict, str, dict}
use pyjwt.Value.DictLaws.{SameEntries}
use pyjwt.Utils.Text.{Bytes, IsBytes}
use pyjwt.Algorithms.{Algorithm, Key}
use pyjwt.Jws.State.{PyJws, get_algorithm_by_name}
use pyjwt.Jws.Load.{Json}
use pyjwt.Jws.Verify.{
  KeyArg, plain, is_empty_or_none, is_jwk, not_allowed, allowed_algorithms, algorithm_of_value,
  choose, Warning, check_key_length,
}
use pyjwt.Jws.SigningLaws.{not_empty}

module _ (json : Json) where
  -- `loads` reads the header that `dumps` wrote: the same entries, if in another order.
  pub record ReadsBack (header header' : Dict) (sort_headers : Bool) : Type 0 where
    pub same : SameEntries header' header
    pub are_bytes : (bs : Bytes) → json.dumps sort_headers (dict header) ≡ ok bs → IsBytes bs
    pub reads :
        (bs : Bytes)
        → json.dumps sort_headers (dict header) ≡ ok bs
        → json.loads bs ≡ ok (dict header')

module _ {O : Type 0} (jws : PyJws O) where
  -- Signatures under one key are accepted under the other.
  pub record KeysMatch (handler : Algorithm O) (sign_key verify_key : Key O) (ws : List Warning)
      : Type 0 where
    pub prepared : Key O
    pub prepares : handler.prepare_key verify_key ≡ ok prepared
    pub is_long : check_key_length jws handler prepared ≡ ok ws
    pub are_bytes :
        (k : Key O) (msg sig : Bytes)
        → handler.prepare_key sign_key ≡ ok k
        → handler.sign msg k ≡ ok sig
        → IsBytes sig
    pub accepts :
        (k : Key O) (msg sig : Bytes)
        → handler.prepare_key sign_key ≡ ok k
        → handler.sign msg k ≡ ok sig
        → handler.verify msg prepared sig ≡ ok true

module _ {O : Type 0} (has_crypto : Bool) (jws : PyJws O) where
  -- What is signed under one key is accepted under the key argument.
  pub record ArgMatches (handler : Algorithm O) (sign_key : Key O) (arg : KeyArg O)
      (algorithms : Option (List String)) (name : String) (ws : List Warning) : Type 0 where
    pub algorithm : Algorithm O
    pub prepared : Key O
    pub chosen : choose has_crypto jws arg (str name) ≡ ok (algorithm, prepared)
    pub is_given : (is_empty_or_none algorithms && not (is_jwk arg)) ≡ false
    pub is_allowed : not_allowed (allowed_algorithms algorithms arg) (str name) ≡ false
    pub is_long : check_key_length jws algorithm prepared ≡ ok ws
    pub are_bytes :
        (k : Key O) (msg sig : Bytes)
        → handler.prepare_key sign_key ≡ ok k
        → handler.sign msg k ≡ ok sig
        → IsBytes sig
    pub accepts :
        (k : Key O) (msg sig : Bytes)
        → handler.prepare_key sign_key ≡ ok k
        → handler.sign msg k ≡ ok sig
        → algorithm.verify msg prepared sig ≡ ok true

  choose-named :
      (key k : Key O) (name : String) (handler : Algorithm O)
      → get_algorithm_by_name has_crypto jws name ≡ ok handler
      → handler.prepare_key key ≡ ok k
      → choose has_crypto jws (plain key) (str name) ≡ ok (handler, k)
  unfolding choose algorithm_of_value
  choose-named key k name handler e1 e2 = rw (e1, e2)

  pub KeysMatch-ArgMatches :
      (handler : Algorithm O) (sign_key verify_key : Key O) (algs : List String) (name : String)
      (ws : List Warning)
      → is_in name algs ≡ true
      → get_algorithm_by_name has_crypto jws name ≡ ok handler
      → KeysMatch jws handler sign_key verify_key ws
      → ArgMatches handler sign_key (plain verify_key) (some algs) name ws
  KeysMatch-ArgMatches handler sign_key verify_key algs name ws allowed found match = record {
    algorithm = handler;
    prepared = match.prepared;
    chosen = choose-named verify_key match.prepared name handler found match.prepares;
    is_given = rw (not_empty name algs allowed);
    is_allowed = rw allowed;
    is_long = match.is_long;
    are_bytes = match.are_bytes;
    accepts = match.accepts;
  }
