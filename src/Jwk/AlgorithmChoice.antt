-- ===== src/Jwk/AlgorithmChoice.antt =====
-- Which algorithm `PyJWK` of jwt/api_jwk.py chooses for a key, by a specification.
use mathlib.Core.Path.{subst}
use pyjwt.Prelude.{
  Bool, true, false, ◌≡◌, ◌↔◌, ◌⊎◌, inl, inr, refl, Option, none, some, String, ◌==◌, ◌||◌, not,
  arith, ap, eq_iff, Bool-cases, if◌then◌else◌,
}
use pyjwt.Errors.{Result, Error, ok, err, raise, invalid_key_error}
use pyjwt.Errors.Bind.{>>=-eq-ok, ok-injective}
use pyjwt.Value.{
  Value, Dict, null, bool, int, float, str, list, dict, datetime, get, truthy, eq_str,
}
use pyjwt.Jwk.{algorithm_for, given_algorithm, choose_algorithm}

-- The algorithm for a key type and a curve; a key of type EC without a curve counts as P-256.
pub data BelongsTo (kty crv : Value) : String → Type 0 where
  ec_p256 : kty ≡ str "EC" → crv ≡ str "P-256" → BelongsTo kty crv "ES256"
  ec_without : kty ≡ str "EC" → truthy crv ≡ false → BelongsTo kty crv "ES256"
  ec_p384 : kty ≡ str "EC" → crv ≡ str "P-384" → BelongsTo kty crv "ES384"
  ec_p521 : kty ≡ str "EC" → crv ≡ str "P-521" → BelongsTo kty crv "ES512"
  ec_secp256k1 : kty ≡ str "EC" → crv ≡ str "secp256k1" → BelongsTo kty crv "ES256K"
  rsa : kty ≡ str "RSA" → BelongsTo kty crv "RS256"
  octets : kty ≡ str "oct" → BelongsTo kty crv "HS256"
  okp_ed25519 : kty ≡ str "OKP" → crv ≡ str "Ed25519" → BelongsTo kty crv "EdDSA"

-- An argument that is None or the empty text counts as missing.
abbrev pub IsMissing : Option String → Type 0
IsMissing algorithm = (algorithm ≡ none) ⊎ (algorithm ≡ some "")

-- The argument comes first, then the key's "alg", then its type.
pub data IsChosen (algorithm : Option String) (d : Dict) (name : String) : Type 0 where
  by_argument : algorithm ≡ some name → (name == "") ≡ false → IsChosen algorithm d name
  by_key :
      IsMissing algorithm
      → get d "alg" ≡ str name
      → (name == "") ≡ false
      → IsChosen algorithm d name
  by_type :
      IsMissing algorithm
      → truthy (get d "alg") ≡ false
      → BelongsTo (get d "kty") (get d "crv") name
      → IsChosen algorithm d name

str-injective : {s t : String} → str s ≡ str t → s ≡ t
str-injective h = cc

eq_str-eq-true : (v : Value) (s : String) → eq_str v s ≡ true → v ≡ str s
eq_str-eq-true (str t) s h = ap str ((eq_iff t s).0 h)
eq_str-eq-true null s h = cc
eq_str-eq-true (bool b) s h = cc
eq_str-eq-true (int n) s h = cc
eq_str-eq-true (float x) s h = cc
eq_str-eq-true (list vs) s h = cc
eq_str-eq-true (dict d) s h = cc
eq_str-eq-true (datetime t) s h = cc

BelongsTo-algorithm_for :
    (kty crv : Value) (name : String) → BelongsTo kty crv name → algorithm_for kty crv ≡ ok name
unfolding algorithm_for
BelongsTo-algorithm_for kty crv _ (ec_p256 h k) = rw (h, k)
BelongsTo-algorithm_for kty crv _ (ec_without h k) = rw (h, k) (ground arith)
BelongsTo-algorithm_for kty crv _ (ec_p384 h k) = rw (h, k)
BelongsTo-algorithm_for kty crv _ (ec_p521 h k) = rw (h, k)
BelongsTo-algorithm_for kty crv _ (ec_secp256k1 h k) = rw (h, k)
BelongsTo-algorithm_for kty crv _ (rsa h) = rw h
BelongsTo-algorithm_for kty crv _ (octets h) = rw h
BelongsTo-algorithm_for kty crv _ (okp_ed25519 h k) = rw (h, k)

falsy : (b : Bool) → not b ≡ true → b ≡ false
falsy b h = ground arith

-- A conditional that returns: which branch did.
branch {ℓ} :
    {P : Type ℓ} {A : Type 0} {a : A} (b : Bool) (m n : Result A)
    → (b ≡ true → m ≡ ok a → P)
    → (b ≡ false → n ≡ ok a → P)
    → (if b then m else n) ≡ ok a
    → P
branch true m n on_true on_false h = on_true refl h
branch false m n on_true on_false h = on_false refl h

refused {ℓ} : {P : Type ℓ} {A : Type 0} {a : A} (e : Error) → err e ≡ ok a → P
refused e h = cc

module _ (kty crv : Value) (name : String) where
  p256_case :
      kty ≡ str "EC" → (eq_str crv "P-256" || not (truthy crv)) ≡ true → BelongsTo kty crv "ES256"
  p256_case ec h = elim (Bool-cases (eq_str crv "P-256")) [
    | inl e ↦ ec_p256 ec (eq_str-eq-true crv "P-256" e)
    | inr n ↦ ec_without ec (falsy (truthy crv) (rw n at h))
  ]

  ec_case :
      kty ≡ str "EC"
      → (if eq_str crv "P-256" || not (truthy crv)
          then ok "ES256"
          else if eq_str crv "P-384"
          then ok "ES384"
          else if eq_str crv "P-521"
          then ok "ES512"
          else if eq_str crv "secp256k1"
          then ok "ES256K"
          else raise invalid_key_error "Unsupported crv")
        ≡ ok name
      → BelongsTo kty crv name
  ec_case ec =
      let is = λ (n : String) (b : BelongsTo kty crv n) (q : ok n ≡ ok name).
        subst (BelongsTo kty crv) (ok-injective q) b in
      let on = eq_str-eq-true crv in
      branch _ _ _ (λ e. is "ES256" (p256_case ec e))
        (λ _.
          branch _ _ _ (λ e. is "ES384" (ec_p384 ec (on "P-384" e)))
            (λ _.
              branch _ _ _ (λ e. is "ES512" (ec_p521 ec (on "P-521" e)))
                (λ _.
                  branch _ _ _ (λ e. is "ES256K" (ec_secp256k1 ec (on "secp256k1" e)))
                    (λ _. refused _))))

  okp_case :
      kty ≡ str "OKP"
      → (if not (truthy crv)
          then raise invalid_key_error "crv is not found"
          else if eq_str crv "Ed25519"
          then ok "EdDSA"
          else raise invalid_key_error "Unsupported crv")
        ≡ ok name
      → BelongsTo kty crv name
  okp_case okp =
      branch (not (truthy crv)) _ _ (λ _. refused _)
        (λ _.
          branch _ _ _
            (λ e q.
              subst (BelongsTo kty crv) (ok-injective q)
                (okp_ed25519 okp (eq_str-eq-true crv "Ed25519" e)))
            (λ _. refused _))

  algorithm_for-BelongsTo : algorithm_for kty crv ≡ ok name → BelongsTo kty crv name
  unfolding algorithm_for
  algorithm_for-BelongsTo =
      let is = λ (n : String) (b : BelongsTo kty crv n) (q : ok n ≡ ok name).
        subst (BelongsTo kty crv) (ok-injective q) b in
      let of_type = eq_str-eq-true kty in
      branch _ _ _ (λ e. ec_case (of_type "EC" e))
        (λ _.
          branch _ _ _ (λ e. is "RS256" (rsa (of_type "RSA" e)))
            (λ _.
              branch _ _ _ (λ e. is "HS256" (octets (of_type "oct" e)))
                (λ _. branch _ _ _ (λ e. okp_case (of_type "OKP" e)) (λ _. refused _))))

-- `choose_algorithm` returns a name exactly when it is chosen.
missing :
    (algorithm : Option String)
    → IsMissing algorithm
    → (d : Dict) → given_algorithm algorithm d ≡ get d "alg"
missing algorithm (inl e) d = rw e
missing algorithm (inr e) d = rw e

IsChosen-choose_algorithm :
    (algorithm : Option String) (d : Dict) (name : String)
    → IsChosen algorithm d name
    → choose_algorithm algorithm d ≡ ok (str name)
unfolding choose_algorithm
IsChosen-choose_algorithm algorithm d name (by_argument e n) = rw (e, n, n)
IsChosen-choose_algorithm algorithm d name (by_key m e n) = rw (missing algorithm m d, e, n)
IsChosen-choose_algorithm algorithm d name (by_type m e b) =
    rw (missing algorithm m d, e, BelongsTo-algorithm_for _ _ name b)

truthy_name : (name : String) → truthy (str name) ≡ true → (name == "") ≡ false
truthy_name name h = ground arith

-- Where no argument counts.
own_algorithm :
    (algorithm : Option String) (d : Dict) (name : String)
    → IsMissing algorithm
    → choose_algorithm none d ≡ ok (str name)
    → IsChosen algorithm d name
unfolding choose_algorithm
own_algorithm algorithm d name m =
    branch _ _ _ (λ t e. let e' = ok-injective e in by_key m e' (truthy_name name (rw e' at t)))
      (λ f e.
        let (n, h, q) = >>=-eq-ok (algorithm_for (get d "kty") (get d "crv")) _ e in
        let same = ok-injective q in
        by_type m f (
          subst (BelongsTo (get d "kty") (get d "crv")) (str-injective same)
            (algorithm_for-BelongsTo _ _ n h)))

choose_algorithm-IsChosen :
    (algorithm : Option String) (d : Dict) (name : String)
    → choose_algorithm algorithm d ≡ ok (str name)
    → IsChosen algorithm d name
unfolding choose_algorithm
choose_algorithm-IsChosen none d name h = own_algorithm none d name (inl refl) h
choose_algorithm-IsChosen (some a) d name h = elim (Bool-cases (a == "")) [
  | inl e ↦ own_algorithm (some a) d name (inr (ap some ((eq_iff a "").0 e))) (rw e at h)
  | inr e ↦
      let same = str-injective (ok-injective (rw (e, e) at h)) in
      by_argument (ap some same) (subst (λ (x : String). (x == "") ≡ false) same e)
]

pub choose_algorithm_iff :
    (algorithm : Option String) (d : Dict) (name : String)
    → (choose_algorithm algorithm d ≡ ok (str name)) ↔ IsChosen algorithm d name
choose_algorithm_iff algorithm d name =
    (choose_algorithm-IsChosen algorithm d name, IsChosen-choose_algorithm algorithm d name)
