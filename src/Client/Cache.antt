-- ===== src/Client/Cache.antt =====
-- Class `JWKSetCache` of jwt/jwk_set_cache.py, with `PyJWTSetWithTimestamp` of jwt/api_jwk.py. The
-- cache holds what it is given: in jwks_client.py that is the endpoint's JSON value. Times and the
-- lifespan are in microseconds.
use pyjwt.Prelude.{Bool, false, ◌&&◌, Option, none, some, if◌then◌else◌}
use pyjwt.Prelude.Int.{ℤ, negsuc, ◌+ℤ◌, ltb_ℤ}

pub record SetWithTimestamp (A : Type 0) : Type 0 where
  pub jwk_set : A
  pub timestamp : ℤ

pub record JwkSetCache (A : Type 0) : Type 0 where
  pub jwk_set_with_timestamp : Option (SetWithTimestamp A)
  pub lifespan : ℤ

-- -1 second
abbrev pub minus_one : ℤ
minus_one = negsuc 999_999

module _ {A : Type 0} where
  unfoldable pub init : ℤ → JwkSetCache A
  init lifespan = record { jwk_set_with_timestamp = none; lifespan = lifespan }

  abbrev stamp : Option A → ℤ → Option (SetWithTimestamp A)
  stamp none now = none
  stamp (some s) now = some (record { jwk_set = s; timestamp = now })

  -- `now` is time.monotonic(); None clears the cache.
  unfoldable pub put : Option A → ℤ → JwkSetCache A → JwkSetCache A
  put s now c = record c { jwk_set_with_timestamp = stamp s now }

  abbrev expired_at : Option (SetWithTimestamp A) → ℤ → ℤ → Bool
  expired_at none lifespan now = false
  expired_at (some s) lifespan now = ltb_ℤ minus_one lifespan && ltb_ℤ (s.timestamp +ℤ lifespan) now

  unfoldable pub is_expired : JwkSetCache A → ℤ → Bool
  is_expired c now = expired_at c.jwk_set_with_timestamp c.lifespan now

  abbrev set_of : Option (SetWithTimestamp A) → Option A
  set_of none = none
  set_of (some s) = some s.jwk_set

  unfoldable pub get : JwkSetCache A → ℤ → Option A
  unfolding is_expired
  get c now = if is_expired c now then none else set_of c.jwk_set_with_timestamp
