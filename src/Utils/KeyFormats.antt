-- ===== src/Utils/KeyFormats.antt =====
-- `is_pem_format` and `is_ssh_key` of jwt/utils.py: the regular expression `_PEM_RE` as a matcher with
-- a continuation, and the prefixes `_SSH_KEY_FORMATS`.
use Prim.Native.Char.{code}
use pyjwt.Prelude.{ℕ, String, Bool, true, false, ◌&&◌, ◌||◌, List, [], ◌∷◌, nat_eq}
use pyjwt.Utils.Text.{Bytes}

-- The code points of a literal.
abbrev pub codes : String → List ℕ
codes String.[] = []
codes (String.◌∷◌ c s) = code c ∷ codes s

-- Match the literal, then go on with the rest.
unfoldable pub literal : Bytes → Bytes → (Bytes → Bool) → Bool
literal [] s k = k s
literal (p ∷ ps) [] k = false
literal (p ∷ ps) (c ∷ s) k = nat_eq p c && literal ps s k

-- [- ]
unfoldable pub dash_or_space : Bytes → (Bytes → Bool) → Bool
dash_or_space [] k = false
dash_or_space (c ∷ s) k = (nat_eq c b'-' || nat_eq c b' ') && k s

abbrev pub cr : ℕ
cr = 13

abbrev pub lf : ℕ
lf = 10

-- \\r?\\n
unfoldable pub newline : Bytes → (Bytes → Bool) → Bool
newline s k = literal (cr ∷ lf ∷ []) s k || literal (lf ∷ []) s k

-- .+? with DOTALL
unfoldable pub some_chars : Bytes → (Bytes → Bool) → Bool
some_chars [] k = false
some_chars (c ∷ s) k = k s || some_chars s k

-- ----[- ]WORD NAME[- ]----
unfoldable pub boundary : Bytes → Bytes → Bytes → (Bytes → Bool) → Bool
boundary word name s k = literal (codes "----") s λ s1. dash_or_space s1 λ s2.
    literal word s2 λ s3. literal name s3 λ s4. dash_or_space s4 λ s5. literal (codes "----") s5 k

-- The whole expression at one place, for the label that its group matched; what may follow the last
-- boundary is optional.
unfoldable pub pem_end : Bytes → Bytes → Bool
pem_end name s = newline s λ r. boundary (codes "END ") name r (λ _. true)

unfoldable pub pem_body : Bytes → Bytes → Bool
pem_body name s = newline s λ r. some_chars r (pem_end name)

unfoldable pub pem_at : Bytes → Bytes → Bool
pem_at name s = boundary (codes "BEGIN ") name s (pem_body name)

unfoldable pub any : (Bytes → Bool) → List Bytes → Bool
any p [] = false
any p (x ∷ xs) = p x || any p xs

-- _PEM_RE.search(key)
unfoldable pub search_in : (Bytes → Bool) → Bytes → Bool
search_in p [] = p []
search_in p (c ∷ s) = p (c ∷ s) || search_in p s

abbrev pub pems : List Bytes
pems =
    codes "CERTIFICATE"
    ∷ codes "TRUSTED CERTIFICATE"
    ∷ codes "PRIVATE KEY"
    ∷ codes "PUBLIC KEY"
    ∷ codes "ENCRYPTED PRIVATE KEY"
    ∷ codes "OPENSSH PRIVATE KEY"
    ∷ codes "DSA PRIVATE KEY"
    ∷ codes "RSA PRIVATE KEY"
    ∷ codes "RSA PUBLIC KEY"
    ∷ codes "EC PRIVATE KEY"
    ∷ codes "DH PARAMETERS"
    ∷ codes "NEW CERTIFICATE REQUEST"
    ∷ codes "CERTIFICATE REQUEST"
    ∷ codes "SSH2 PUBLIC KEY"
    ∷ codes "SSH2 ENCRYPTED PRIVATE KEY"
    ∷ codes "X509 CRL"
    ∷ []

unfoldable pub is_pem_format : Bytes → Bool
is_pem_format key = search_in (λ s. any (λ name. pem_at name s) pems) key

abbrev pub ssh_key_formats : List Bytes
ssh_key_formats =
    codes "ssh-ed25519"
    ∷ codes "ssh-rsa"
    ∷ codes "ssh-dss"
    ∷ codes "ecdsa-sha2-nistp256"
    ∷ codes "ecdsa-sha2-nistp384"
    ∷ codes "ecdsa-sha2-nistp521"
    ∷ []

unfoldable pub starts_with : Bytes → Bytes → Bool
starts_with s prefix = literal prefix s (λ _. true)

unfoldable pub is_ssh_key : Bytes → Bool
is_ssh_key key = any (starts_with key) ssh_key_formats
