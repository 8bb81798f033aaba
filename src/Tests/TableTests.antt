-- ===== src/Tests/TableTests.antt =====
-- The table of algorithms and the headers of jwt/api_jws.py at concrete inputs.
use pyjwt.Prelude.{
  Bool, true, false, ◌≡◌, refl, Option, none, some, String, List, [], ◌∷◌, ◌==◌, ◌++◌, arith,
  if◌then◌else◌, is_in,
}
use pyjwt.Prelude.Assoc.{find, put, add}
use pyjwt.Errors.{ok}
use pyjwt.Value.{Dict, str, empty, entry, lookup}
use pyjwt.Utils.Text
use pyjwt.Utils.Base64.{base64url_encode}
use pyjwt.Algorithms.{Algorithm}
use pyjwt.Jws.State.{
  PyJws, is_found_in, missing_message, register_algorithm, unregister_algorithm,
  get_algorithm_by_name,
}
use pyjwt.Jws.StateLaws.{IsConsistent, Reachable, built, registered, Reachable-IsConsistent}
use pyjwt.Jws.Load.{dot, load}
use pyjwt.Jws.LoadLaws.{join, load-join}
use pyjwt.Tests.Fixtures.{backend, hs256, header, codec, jws}

-- A second name for HS256.
abbrev extended : PyJws (Unit {0})
extended = record jws {
  algorithms = put "hash" hs256 jws.algorithms;
  valid_algs = add "hash" jws.valid_algs;
}

registers : register_algorithm jws "hash" hs256 ≡ ok extended
unfolding pyjwt.Jws.State.init pyjwt.Jws.State.merge_sig_options pyjwt.Jws.State.keep_valid
    pyjwt.Jws.State.get_algorithm_by_name pyjwt.Prelude.Assoc.find
    pyjwt.Algorithms.get_default_algorithms pyjwt.Jws.State.register_algorithm
    pyjwt.Prelude.Assoc.put pyjwt.Prelude.Assoc.add
registers = refl

reached : Reachable backend extended
reached = registered "hash" hs256 (built none none) registers

Reachable-IsConsistent_example : IsConsistent extended
Reachable-IsConsistent_example = Reachable-IsConsistent backend extended reached

hash_found : is_found_in (find "hash" extended.algorithms) ≡ true
unfolding pyjwt.Jws.State.init pyjwt.Jws.State.merge_sig_options pyjwt.Jws.State.keep_valid
    pyjwt.Jws.State.get_algorithm_by_name pyjwt.Prelude.Assoc.find
    pyjwt.Algorithms.get_default_algorithms pyjwt.Jws.State.register_algorithm
    pyjwt.Prelude.Assoc.put pyjwt.Prelude.Assoc.add
hash_found = refl

load-join_example :
    load codec (Text.bytes (join (b'h' ∷ []) (b'p' ∷ []) (1 ∷ [])))
    ≡ ok (record {
      payload = b'p' ∷ [];
      signing_input = base64url_encode (b'h' ∷ []) ++ dot ∷ base64url_encode (b'p' ∷ []);
      header = header;
      signature = 1 ∷ [];
    })
load-join_example =
    load-join codec (b'h' ∷ []) (b'p' ∷ []) (1 ∷ []) header (omega arith, tt) (omega arith, tt)
      (omega arith, tt) refl

abbrev with_kid : Dict
with_kid = entry "kid" (str "a") empty

no_kid : lookup "kid" empty ≡ none
unfolding lookup
no_kid = refl
