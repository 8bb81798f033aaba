-- ===== src/Tests/NumberTests.antt =====
-- Python's `int` on texts, as the time claims of jwt/api_jwt.py use it.
use pyjwt.Prelude.{◌≡◌, refl}
use pyjwt.Prelude.Int.{pos, negsuc}
use pyjwt.Errors.{ok, raise, value_error}
use pyjwt.Jwt.Numbers.{int_of_str}

reads_ascii : int_of_str " -1_0 " ≡ ok (negsuc 9)
unfolding int_of_str
reads_ascii = refl

-- The full-width digits 1 and 2.
reads_wide : int_of_str "１２" ≡ ok (pos 12)
unfolding int_of_str
reads_wide = refl

refuses_two_underscores :
    int_of_str "1__0" ≡ raise value_error "invalid literal for int() with base 10"
unfolding int_of_str
refuses_two_underscores = refl
