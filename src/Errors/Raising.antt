-- ===== src/Errors/Raising.antt =====
-- Which class of exception fallible code lets out.
use pyjwt.Prelude.{Bool, true, false, ◌≡◌, String, if◌then◌else◌}
use pyjwt.Errors.{
  ErrorClass, Result, ok, err, raise_if, except_raise, isinstance, invalid_token_error, ◌>>=◌, ◌>>◌,
}

-- It returns, or raises an exception of the class.
abbrev pub RaisesOnly {ℓ} : {A : Type ℓ} → ErrorClass → Result A → Type 0
RaisesOnly c (ok a) = Unit
RaisesOnly c (err e) = isinstance e c ≡ true

pub RaisesOnly->>= {ℓ κ} :
    {A : Type ℓ} {B : Type κ} (c : ErrorClass) (m : Result A) (f : A → Result B)
    → RaisesOnly c m
    → ((a : A) → RaisesOnly c (f a))
    → RaisesOnly c (m >>= f)
RaisesOnly->>= c (ok a) f p q = q a
RaisesOnly->>= c (err e) f p q = p

-- Catching every exception that is raised, and raising another.
pub RaisesOnly-except_raise {ℓ} :
    {A : Type ℓ} (r : Result A) (c c' c'' : ErrorClass) (m : String)
    → RaisesOnly c r
    → RaisesOnly {A = A} c'' (err (record { cls = c'; message = m }))
    → RaisesOnly c'' (except_raise r c c' m)
RaisesOnly-except_raise (ok a) c c' c'' m p q = tt
RaisesOnly-except_raise (err e) c c' c'' m p q = rw p q

pub RaisesOnly-raise_if :
    (b : Bool) (c c' : ErrorClass) (m : String)
    → isinstance (record { cls = c'; message = m }) c ≡ true
    → RaisesOnly c (raise_if b c' m)
RaisesOnly-raise_if true c c' m p = p
RaisesOnly-raise_if false c c' m p = tt

pub RaisesOnly-if {ℓ} :
    {A : Type ℓ} (b : Bool) (c : ErrorClass) (m n : Result A)
    → RaisesOnly c m
    → RaisesOnly c n
    → RaisesOnly c (if b then m else n)
RaisesOnly-if true c m n p q = p
RaisesOnly-if false c m n p q = q

pub RaisesOnly->> :
    (m n : Result (Unit {0}))
    → RaisesOnly invalid_token_error m
    → RaisesOnly invalid_token_error n
    → RaisesOnly invalid_token_error (m >> n)
RaisesOnly->> m n p q = RaisesOnly->>= invalid_token_error m (λ u. n) p (λ u. q)
