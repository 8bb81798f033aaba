-- ===== src/Algorithms/KeyLaws.antt =====
-- Which keys `HMACAlgorithm` accepts: the guard of its `prepare_key` against public keys.
use pyjwt.Prelude.{
  ℕ, Bool, true, ◌≡◌, ◌≢◌, ◌⊎◌, inl, inr, refl, List, [], ◌∷◌, ◌++◌, nat_eq_refl, arith,
}
use pyjwt.Errors.{ok, raise, invalid_key_error}
use pyjwt.Utils.Text.{Bytes, Text, force_bytes}
use pyjwt.Algorithms.{prepare_hmac_key, secret, asymmetric_message}
use pyjwt.Utils.KeyFormats.{
  codes, literal, dash_or_space, newline, some_chars, boundary, pem_end, pem_body, pem_at, any,
  search_in, pems, is_pem_format, cr, lf, ssh_key_formats, starts_with, is_ssh_key,
}

literal-append : (p s : Bytes) (k : Bytes → Bool) → literal p (p ++ s) k ≡ k s
unfolding literal
literal-append [] s k = refl
literal-append (c ∷ p) s k = rw nat_eq_refl (literal-append p s k)

search_in-append : (p : Bytes → Bool) (pre s : Bytes) → p s ≡ true → search_in p (pre ++ s) ≡ true
unfolding search_in
search_in-append p [] [] h = h
search_in-append p [] (c ∷ s) h = rw h
search_in-append p (c ∷ pre) s h = rw (search_in-append p pre s h) (ground arith)

some_chars-append :
    (k : Bytes → Bool) (body s : Bytes) → body ≢ [] → k s ≡ true → some_chars (body ++ s) k ≡ true
unfolding some_chars
some_chars-append k [] s h e = absurd (h refl)
some_chars-append k (c ∷ []) s h e = rw e
some_chars-append k (c ∷ d ∷ body) s h e =
    rw (some_chars-append k (d ∷ body) s (λ q. cc) e) (ground arith)

-- What the expression leaves open: a dash or a space beside the four dashes, and the line ends.
pub data Separator : Type 0 where
  dash space : Separator

pub data LineEnd : Type 0 where
  unix dos : LineEnd

abbrev pub separator : Separator → ℕ
separator dash = b'-'
separator space = b' '

abbrev pub line_end : LineEnd → Bytes
line_end unix = lf ∷ []
line_end dos = cr ∷ lf ∷ []

-- The choices in a line `----[- ]WORD NAME[- ]----` with its end.
pub record Line : Type 0 where
  pub before : Separator
  pub after : Separator
  pub ends : LineEnd

abbrev pub line : Line → Bytes → Bytes → Bytes → Bytes
line l word name s =
    codes "----"
    ++ (separator l.before ∷ (word ++ (name ++ (separator l.after ∷ (codes "----" ++ s)))))

dash_or_space-separator :
    (d : Separator) (s : Bytes) (k : Bytes → Bool) → dash_or_space (separator d ∷ s) k ≡ k s
unfolding dash_or_space
dash_or_space-separator dash s k = refl
dash_or_space-separator space s k = refl

boundary-line :
    (l : Line) (word name s : Bytes) (k : Bytes → Bool)
    → boundary word name (line l word name s) k ≡ k s
unfolding boundary
boundary-line l word name s k = rw (
  literal-append, dash_or_space-separator, literal-append, literal-append, dash_or_space-separator,
  literal-append,
)

newline-line_end : (e : LineEnd) (s : Bytes) (k : Bytes → Bool) → newline (line_end e ++ s) k ≡ k s
unfolding newline literal
newline-line_end unix s k = refl
newline-line_end dos s k = ground arith

-- A text of the form BEGIN line, body, END line.
abbrev pub pem_text : Line → LineEnd → Line → Bytes → Bytes → Bytes → Bytes
pem_text opening e closing name body post =
    line opening (codes "BEGIN ") name
      (line_end opening.ends ++ (body ++ (line_end e ++ line closing (codes "END ") name post)))

pem_at-pem_text :
    (opening : Line) (e : LineEnd) (closing : Line) (name body post : Bytes)
    → body ≢ []
    → pem_at name (pem_text opening e closing name body post) ≡ true
unfolding pem_at pem_body pem_end
pem_at-pem_text opening e closing name body post h =
    rw (boundary-line, newline-line_end)
      (some_chars-append _ body _ h (rw (newline-line_end, boundary-line)))

-- `x in xs`
abbrev pub In : Bytes → List Bytes → Type 0
In x [] = ⊥
In x (y ∷ ys) = (x ≡ y) ⊎ In x ys

any-In : (p : Bytes → Bool) (x : Bytes) (xs : List Bytes) → In x xs → p x ≡ true → any p xs ≡ true
unfolding any
any-In p x [] h e = absurd h
any-In p x (y ∷ ys) (inl q) e = rw (← q, e)
any-In p x (y ∷ ys) (inr h) e = rw (any-In p x ys h e) (ground arith)

-- A text with a PEM block anywhere in it is recognised, whatever its label, its body and what
-- stands around it.
pub is_pem_format-pem_text :
    (opening : Line) (e : LineEnd) (closing : Line) (pre name body post : Bytes)
    → In name pems
    → body ≢ []
    → is_pem_format (pre ++ pem_text opening e closing name body post) ≡ true
unfolding is_pem_format
is_pem_format-pem_text opening e closing pre name body post h k = search_in-append _ pre _ (
    any-In (λ n. pem_at n (pem_text opening e closing name body post)) name pems h
      (pem_at-pem_text opening e closing name body post k))

is_ssh_key-append :
    (prefix rest : Bytes) → In prefix ssh_key_formats → is_ssh_key (prefix ++ rest) ≡ true
unfolding is_ssh_key starts_with
is_ssh_key-append prefix rest h =
    any-In (λ p. starts_with (prefix ++ rest) p) prefix ssh_key_formats h
      (literal-append prefix rest (λ _. true))

-- `HMACAlgorithm.prepare_key` raises InvalidKeyError for a text or bytes, made bytes by
-- `force_bytes`, with a PEM block of a known label and a body anywhere in them, its boundaries with
-- dashes or spaces and its line ends LF or CRLF, and for those that begin like an SSH public key.
pub prepare_hmac_key-asymmetric :
    {O : Type 0} (key : Text) (opening : Line) (e : LineEnd) (closing : Line)
    (pre name body post prefix rest : Bytes)
    → In name pems
    → body ≢ []
    → In prefix ssh_key_formats
    → (force_bytes key ≡ ok (pre ++ pem_text opening e closing name body post))
      ⊎ (force_bytes key ≡ ok (prefix ++ rest))
    → prepare_hmac_key {O = O} (secret key) ≡ raise invalid_key_error asymmetric_message
unfolding prepare_hmac_key
prepare_hmac_key-asymmetric key opening e closing pre name body post prefix rest h k p (inl q) =
    rw (q, is_pem_format-pem_text opening e closing pre name body post h k)
prepare_hmac_key-asymmetric key opening e closing pre name body post prefix rest h k p (inr q) =
    rw (q, is_ssh_key-append prefix rest p) (ground arith)
