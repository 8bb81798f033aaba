-- ===== src/Jwt/ClaimsSpec.antt =====
-- What it means that claims are acceptable, stated without the code of jwt/api_jwt.py: the promise of
-- `_validate_claims`.
use pyjwt.Prelude.{
  Bool, true, false, ◌≡◌, ◌≢◌, ◌⊎◌, Option, none, some, String, List, [], ◌∷◌, All, is_in,
}
use pyjwt.Prelude.Int.{ℤ, ◌+ℤ◌, ◌-ℤ◌, ◌≤ℤ◌, pos_part, neg_part}
use Prim.Native.Nat.{◌<◌, ◌+◌}
use pyjwt.Errors.{ok}
use pyjwt.Value.{Value, Items, Dict, str, list, get, has, lookup, is_none, truthy}
use pyjwt.Jwt.Numbers.{to_int, seconds}
use pyjwt.Jwt.Options.{FullOptions}
use pyjwt.Jwt.Claims.{
  Audience, Issuer, unspecified, one, many, not_iterable, not_container, total_seconds, all_str,
  item_in, Expected, is_iterable,
}

infix 50 ◌<ℤ◌
abbrev pub ◌<ℤ◌ : ℤ → ℤ → Type 0
a <ℤ b = pos_part a + neg_part b < pos_part b + neg_part a

-- The claim is a number of seconds that is not after `now`, give or take the leeway.
abbrev pub HasStarted : Dict → String → ℤ → ℤ → Type 0
HasStarted payload claim now leeway =
    (t : ℤ) × (to_int (get payload claim) ≡ ok t) × (seconds t ≤ℤ now +ℤ leeway)

-- "exp" is a number of seconds that is still after `now`, give or take the leeway.
abbrev pub IsLive : Dict → ℤ → ℤ → Type 0
IsLive payload now leeway =
    (t : ℤ) × (to_int (get payload "exp") ≡ ok t) × (now -ℤ leeway <ℤ seconds t)

-- "iss" is the issuer, or one of the issuers, that the caller names.
abbrev pub IsIssuedBy : Dict → Issuer → Type 0
IsIssuedBy payload unspecified = Unit
IsIssuedBy payload (one s) = lookup "iss" payload ≡ some (str s)
IsIssuedBy payload (many l) =
    (s : String) × (lookup "iss" payload ≡ some (str s)) × (is_in s l ≡ true)
IsIssuedBy payload not_container = ⊥

-- "sub", if it is there, is a text, and the subject that the caller names.
abbrev pub IsAbout : Dict → Option String → Type 0
IsAbout payload none =
    (lookup "sub" payload ≡ none) ⊎ ((s : String) × (lookup "sub" payload ≡ some (str s)))
IsAbout payload (some s) = (lookup "sub" payload ≡ none) ⊎ (lookup "sub" payload ≡ some (str s))

-- "jti", if it is there, is a text.
abbrev pub HasTextId : Dict → Type 0
HasTextId payload =
    (lookup "jti" payload ≡ none) ⊎ ((s : String) × (lookup "jti" payload ≡ some (str s)))

-- One of the texts is among the claims.
abbrev pub Meets : List String → Items → Type 0
Meets auds claims = (a : String) × (is_in a auds ≡ true) × (item_in a claims ≡ true)

-- A value of "aud" that is for one of the audiences: a non-empty text, or a list of texts.
abbrev pub IsFor : List String → Value → Type 0
IsFor auds (str s) = (s ≢ "") × (is_in s auds ≡ true)
IsFor auds (list claims) = (all_str claims ≡ true) × Meets auds claims
IsFor auds _ = ⊥

-- The audience check: with no audience the token must name none; in strict mode the claim is the one
-- text that the caller gave.
abbrev pub IsMeantFor : Dict → Audience → Bool → Type 0
IsMeantFor payload unspecified strict = truthy (get payload "aud") ≡ false
IsMeantFor payload (one s) true = (s ≢ "") × (get payload "aud" ≡ str s)
IsMeantFor payload (one s) false = IsFor (s ∷ []) (get payload "aud")
IsMeantFor payload (many l) true = ⊥
IsMeantFor payload (many l) false = IsFor l (get payload "aud")
IsMeantFor payload not_iterable strict = ⊥

pub record IsAcceptable (payload : Dict) (o : FullOptions) (x : Expected) (now : ℤ) : Type 0 where
  pub iterable : is_iterable x.audience ≡ true
  pub required : All (λ (c : String). is_none (get payload c) ≡ false) o.require
  pub issued :
      has payload "iat" ≡ true
      → o.verify_iat ≡ true
      → HasStarted payload "iat" now (total_seconds x.leeway)
  pub started :
      has payload "nbf" ≡ true
      → o.verify_nbf ≡ true
      → HasStarted payload "nbf" now (total_seconds x.leeway)
  pub live :
      has payload "exp" ≡ true → o.verify_exp ≡ true → IsLive payload now (total_seconds x.leeway)
  pub issuer : o.verify_iss ≡ true → IsIssuedBy payload x.issuer
  pub audience : o.verify_aud ≡ true → IsMeantFor payload x.audience o.strict_aud
  pub subject : o.verify_sub ≡ true → IsAbout payload x.subject
  pub id : o.verify_jti ≡ true → HasTextId payload
