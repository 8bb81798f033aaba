-- ===== src/Algorithms/Digest.antt =====
-- jwt/algorithms.py: `Algorithm.compute_hash_digest`. The hash functions are parameters.
use pyjwt.Prelude.{Bool, true, false, Option, none, some}
use pyjwt.Errors.{Result, ok, raise, not_implemented_error, type_error}
use pyjwt.Utils.Text.{Bytes}
use pyjwt.Algorithms.{Hash}

-- What `self.hash_alg` is: a constructor of hashlib, or a class of the cryptography package.
pub data HashAlg : Type 0 where
  hashlib : Hash → HashAlg
  cryptography : Hash → HashAlg

-- hash_alg(data).digest() of hashlib, and hashes.Hash(hash_alg()) with update and finalize.
pub record Digests : Type 0 where
  pub hashlib_digest : Hash → Bytes → Bytes
  pub cryptography_digest : Hash → Bytes → Bytes

-- An algorithm with no `hash_alg` has no digest. Without the package no algorithm has one of its
-- classes; called as a function of the message, such a class would refuse the argument.
unfoldable pub compute_hash_digest : Digests → Bool → Option HashAlg → Bytes → Result Bytes
compute_hash_digest digests has_crypto none bytestr = raise not_implemented_error ""
compute_hash_digest digests has_crypto (some (hashlib h)) bytestr =
    ok (digests.hashlib_digest h bytestr)
compute_hash_digest digests true (some (cryptography h)) bytestr =
    ok (digests.cryptography_digest h bytestr)
compute_hash_digest digests false (some (cryptography h)) bytestr =
    raise type_error "takes 1 positional argument but 2 were given"
