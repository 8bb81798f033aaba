-- ===== src/Algorithms/JwkLaws.antt =====
-- `to_jwk` and then `from_jwk` of `HMACAlgorithm` in jwt/algorithms.py.
use pyjwt.Prelude.{◌≡◌, String}
use pyjwt.Errors.{ok}
use pyjwt.Value.{Dict, lookup, str, entry, empty}
use pyjwt.Utils.Text.{Bytes, IsBytes, Text, force_bytes}
use pyjwt.Utils.Base64.{base64url_encode, base64url_decode}
use pyjwt.Utils.Base64Laws.{base64url_decode-base64url_encode}
use pyjwt.Utils.KeyFormats.{codes}
use pyjwt.Utils.Ascii.{decode_ascii-codes, base64url_encode-ascii}
use pyjwt.Algorithms.{secret, hmac_to_jwk, hmac_from_jwk}

-- Decoding looks at a text's bytes only.
base64url_decode-str :
    (s : String) (cs : Bytes)
    → force_bytes (Text.str (codes s)) ≡ ok cs
    → base64url_decode (Text.str (codes s)) ≡ base64url_decode (Text.bytes cs)
unfolding base64url_decode force_bytes
base64url_decode-str s cs h = rw h

-- The JWK that `to_jwk` makes of a text or bytes is read by `from_jwk` as the key's bytes.
pub hmac_from_jwk-hmac_to_jwk :
    {O : Type 0} (key_obj : Text) (bs : Bytes)
    → force_bytes key_obj ≡ ok bs
    → IsBytes bs
    → (d : Dict) × (hmac_to_jwk key_obj ≡ ok d)
      × (hmac_from_jwk {O = O} d ≡ ok (secret (Text.bytes bs)))
unfolding hmac_to_jwk hmac_from_jwk force_bytes lookup
hmac_from_jwk-hmac_to_jwk key_obj bs e h =
    let (k, decoded, same, utf) =
      decode_ascii-codes (base64url_encode bs) (base64url_encode-ascii bs h) in
    (
      entry "k" (str k) (entry "kty" (str "oct") empty),
      rw (e, decoded),
      rw (base64url_decode-str k (base64url_encode bs) utf, base64url_decode-base64url_encode bs h),
    )
