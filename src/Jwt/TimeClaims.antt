-- ===== src/Jwt/TimeClaims.antt =====
-- What `PyJWT.encode` of jwt/api_jwt.py writes for the claims, by a specification: the time claims that
-- are datetimes as whole seconds, and all else as it is.
use pyjwt.Prelude.{suc, ◌*◌, ◌≤◌, ◌<◌, Bool, true, false, ◌≡◌, ◌≢◌, ◌⊎◌, String, ◌==◌, ◌||◌}
use pyjwt.Prelude.Int.{ℤ, pos, negsuc}
use pyjwt.Value.{Value, Dict, int, datetime, empty, entry}
use pyjwt.Jwt.Numbers.{million}

-- `s` is the last whole second that is not after `t`, in microseconds.
abbrev pub IsSecondOf : ℤ → ℤ → Type 0
IsSecondOf (pos t) (pos s) = (s * million ≤ t) × (t < suc s * million)
IsSecondOf (negsuc t) (negsuc s) = (s * million ≤ t) × (t < suc s * million)
IsSecondOf _ _ = ⊥

abbrev pub is_time_claim : String → Bool
is_time_claim k = k == "exp" || (k == "iat" || k == "nbf")

-- What a claim is written as.
pub data IsWritten (claim : String) : Value → Value → Type 0 where
  time :
      (t s : ℤ) → is_time_claim claim ≡ true → IsSecondOf t s → IsWritten claim (datetime t) (int s)
  as_it_is :
      (v : Value) → (is_time_claim claim ≡ false) ⊎ ((t : ℤ) → v ≢ datetime t) → IsWritten claim v v

-- The same keys in the same order.
pub data AreWritten : Dict → Dict → Type 0 where
  none_left : AreWritten empty empty
  one_more :
      {d e : Dict} {v w : Value} (claim : String)
      → IsWritten claim v w
      → AreWritten d e
      → AreWritten (entry claim v d) (entry claim w e)
