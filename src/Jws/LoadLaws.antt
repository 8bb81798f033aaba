-- ===== src/Jws/LoadLaws.antt =====
-- `_load` of jwt/api_jws.py on what `encode` joins, and on any input.
use pyjwt.Prelude.{◌≡◌, refl, Option, some, [], ◌∷◌, ◌++◌, All, arith, append_assoc}
use pyjwt.Errors.{ok}
use pyjwt.Value.{Dict, dict}
use pyjwt.Utils.Text.{Bytes, IsBytes, bytes}
use pyjwt.Utils.Base64.{base64url_encode}
use pyjwt.Utils.Base64Laws.{
  IsUrlSafe, base64url_decode-base64url_encode, base64url_encode-IsUrlSafe,
}
use pyjwt.Jws.Load.{Json, dot, split_dot, rsplit_dot, token_bytes, load}

split_dot-dot : (a b : Bytes) → All IsUrlSafe a → split_dot (a ++ dot ∷ b) ≡ some (a, b)
unfolding split_dot
split_dot-dot [] b h = refl
split_dot-dot (c ∷ a) b h = rw (split_dot-dot a b h.1) (ground (arith, h.0))

rsplit_dot-none : (s : Bytes) → All IsUrlSafe s → rsplit_dot s ≡ Option.none
unfolding rsplit_dot
rsplit_dot-none [] h = refl
rsplit_dot-none (c ∷ s) h = ground (arith, rsplit_dot-none s h.1, h.0)

rsplit_dot-dot : (a b : Bytes) → All IsUrlSafe b → rsplit_dot (a ++ dot ∷ b) ≡ some (a, b)
unfolding rsplit_dot
rsplit_dot-dot [] b h = ground (arith, rsplit_dot-none b h)
rsplit_dot-dot (c ∷ a) b h = ground (arith, rsplit_dot-dot a b h)

rsplit_dot-two :
    (a b c : Bytes)
    → All IsUrlSafe c
    → rsplit_dot (a ++ (dot ∷ (b ++ dot ∷ c))) ≡ some (a ++ dot ∷ b, c)
rsplit_dot-two a b c h =
    rw (← append_assoc a (dot ∷ b) (dot ∷ c)) (rsplit_dot-dot (a ++ dot ∷ b) c h)

-- The three segments of a token, joined.
abbrev pub join : Bytes → Bytes → Bytes → Bytes
join header payload signature =
    base64url_encode header
    ++ (dot ∷ (base64url_encode payload ++ dot ∷ base64url_encode signature))

-- Loading three encoded segments, each made of bytes and the first one the JSON of a dict, gives
-- back the payload, the signature and that dict, and the signing input is the first two segments
-- with the dot between them.
pub load-join :
    (json : Json) (json_header payload signature : Bytes) (header : Dict)
    → IsBytes json_header
    → IsBytes payload
    → IsBytes signature
    → json.loads json_header ≡ ok (dict header)
    → load json (bytes (join json_header payload signature))
      ≡ ok (record {
        payload = payload;
        signing_input = base64url_encode json_header ++ dot ∷ base64url_encode payload;
        header = header;
        signature = signature;
      })
unfolding load token_bytes
load-join json json_header payload signature header hh hp hs e = rw (
  rsplit_dot-two (base64url_encode json_header) (base64url_encode payload)
      (base64url_encode signature) (base64url_encode-IsUrlSafe signature hs),
  split_dot-dot (base64url_encode json_header) (base64url_encode payload)
      (base64url_encode-IsUrlSafe json_header hh),
  base64url_decode-base64url_encode json_header hh,
  e,
  base64url_decode-base64url_encode payload hp,
  base64url_decode-base64url_encode signature hs,
)
