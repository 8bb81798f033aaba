-- ===== src/Algorithms/Backends.antt =====
-- The handlers of jwt/algorithms.py when the cryptography package is installed.
use pyjwt.Prelude.{true}
use pyjwt.Utils.Text.{Bytes}
use pyjwt.Algorithms.{Backend, Hash}
use pyjwt.Algorithms.Crypto.{Cryptography}
use pyjwt.Algorithms.Rsa.{rsa_algorithm, rsa_pss_algorithm}
use pyjwt.Algorithms.Ec.{ec_algorithm}
use pyjwt.Algorithms.Okp.{okp_algorithm}

abbrev pub with_cryptography :
    {O : Type 0} → Cryptography O → (Hash → Bytes → Bytes → Bytes) → Backend O
with_cryptography c hmac = record {
  has_crypto = true;
  hmac = hmac;
  rsa = rsa_algorithm c;
  ec = ec_algorithm c;
  rsa_pss = rsa_pss_algorithm c;
  okp = okp_algorithm c;
}
