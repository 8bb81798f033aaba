-- ===== src/Lib.antt =====
-- PyJWT: encoding, signing, decoding and verifying JSON Web Tokens.
--
-- A token is three Base64 segments: header, payload and signature. `PyJWS` (jwt/api_jws.py) signs and
-- verifies it with an algorithm of jwt/algorithms.py, `PyJWT` (jwt/api_jwt.py) puts JSON claims into it
-- and checks them, `PyJWK` and `PyJWKSet` (jwt/api_jwk.py) hold verification keys, and `PyJWKClient`
-- (jwt/jwks_client.py) fetches them, with a cache (jwt/jwk_set_cache.py).
--
-- Which file models what:
--   Prelude         shared names, Boolean tests, lists, integers, association lists
--   Errors          jwt/exceptions.py: the classes with their bases; `Result` for code that may raise,
--                   `raise_if` for a guard, `except_raise` for an except clause that raises
--   Value           the JSON values that the code handles dynamically, and Python's dict operations
--   Utils           jwt/utils.py: `force_bytes`, Base64, numbers, PEM and SSH recognition, raw
--                   and DER signatures (Signatures; cryptography's DER codec is the parameter `Dss`),
--                   `bytes.decode` on ASCII (Ascii) and on UTF-8 (Utf8)
--   Algorithms      jwt/algorithms.py: the interface, `NoneAlgorithm`, `HMACAlgorithm`, the default
--                   table; Crypto (the cryptography package as a parameter), Rsa with RsaJwk
--                   (`RSAAlgorithm`, `RSAPSSAlgorithm`), Ec with EcJwk (`ECAlgorithm`), Okp with OkpJwk
--                   (`OKPAlgorithm`), Backends (the table's handlers when the package is installed),
--                   JwkText (JWKs as JSON texts), Digest (`compute_hash_digest`)
--   Jwk             jwt/api_jwk.py: `PyJWK`, KeySet (`PyJWKSet`), FromJson (`from_json` of both),
--                   AlgorithmChoice (a specification of the algorithm for a key)
--   Jws             jwt/api_jws.py: State (the object, its table of algorithms), Headers
--                   (`_validate_headers`), Load (`_load`), Verify (`_verify_signature`,
--                   `decode_complete`, `decode`), Encode (`encode`), Coverage (a specification of what
--                   a signature covers)
--   Jwt             jwt/api_jwt.py: Options (`_merge_options`), Numbers (`int`), Claims
--                   (`_validate_claims`), ClaimsSpec (its specification), Decode, Encode, TimeClaims (a
--                   specification of the claims that `encode` writes)
--   Client          jwt/jwk_set_cache.py (Cache) and jwt/jwks_client.py (Fetch; KeyCache is
--                   the LRU cache over `get_signing_key`, FromJwt is `get_signing_key_from_jwt` on
--                   a client without and with that cache)
--   Help            jwt/help.py: `info`, over what the modules platform and sys answer
--   Tests           concrete inputs, with the theorems at them
-- The other children of these modules hold lemmas and theorems.
--
-- State is passed explicitly: an operation that changes its object returns the new one. The time of
-- a check, the answers of the endpoint and their times are arguments. Times and durations are whole
-- microseconds, the resolution of Python's clock; the code uses floats.
--
-- Parameters: the json module (`Json` on bytes, `JsonText` on texts), hmac and the hash functions, the
-- modules platform and sys (`Platform`), and the cryptography package: its key objects are the type
-- `O`, and what the code calls of it is the record `Cryptography`, with its DER codec `Dss`. A `Backend`
-- is the handlers that the default table holds, and Algorithms/Backends makes one of a `Cryptography`.
-- A theorem that relies on one of these says so in its hypotheses: a round trip asks that json reads
-- back what it wrote; the laws of the package (Algorithms/CryptoLaws) are that a key is rebuilt from its
-- numbers or its raw bytes, that the numbers of an EC key and of its signatures fit into the size of
-- the curve, and that a public key accepts what its private key signs. Tests/SmallKeys is a package
-- that keeps them.
--
-- Loops are structural recursion. Only `bit_length_from` has fuel; it is called with the number
-- itself, which is enough rounds of halving. It stands for Python's `int.bit_length`. The digits
-- that `int` reads from a text are those of Unicode 14.
--
-- Not modelled: warnings on surplus keyword arguments, and the warnings of a call that raises;
-- `main` of jwt/help.py, which prints, and the re-exports of jwt/__init__.py.
pub mod Prelude
pub mod Errors
pub mod Value
pub mod Utils
pub mod Algorithms
pub mod Help
pub mod Jwk
pub mod Jws
pub mod Jwt
pub mod Client
mod Tests
