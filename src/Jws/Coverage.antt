-- ===== src/Jws/Coverage.antt =====
-- What a signature covers in `decode_complete` of jwt/api_jws.py, by a specification: the token's own two
-- segments, or its header segment and the detached payload.
use mathlib.Core.Path.{subst}
use pyjwt.Prelude.{
  ℕ, true, false, ◌≡◌, ◌≢◌, refl, ap, Option, none, some, [], ◌∷◌, ◌++◌, All, nat_eq, arith,
  Bool-cases, inl, inr, if◌then◌else◌,
}
use pyjwt.Errors.{ok, except_raise, value_error, decode_error}
use pyjwt.Utils.Base64.{base64url_decode}
use pyjwt.Errors.Bind.{>>=-eq-ok, ok-injective}
use pyjwt.Value.{get, is_false}
use pyjwt.Utils.Text.{Bytes, Text, bytes}
use pyjwt.Jws.Load.{
  Json, Loaded, dot, split_dot, rsplit_dot, token_bytes, two_parts, except_padding, as_dict, load,
}
use pyjwt.Jws.Verify.{need_payload, detached_input, attach}

-- The payload of a message and what was signed. With "b64" false these are the detached payload, and
-- what stands before the last dot of the token's signing input, a dot and that payload.
pub data Covers (l : Loaded) : Option Bytes → Bytes → Bytes → Type 0 where
  own :
      (detached_payload : Option Bytes)
      → is_false (get l.header "b64") ≡ false
      → Covers l detached_payload l.payload l.signing_input
  detached :
      (header_segment payload_segment payload : Bytes)
      → is_false (get l.header "b64") ≡ true
      → l.signing_input ≡ header_segment ++ dot ∷ payload_segment
      → All (λ c. c ≢ dot) payload_segment
      → Covers l (some payload) payload (header_segment ++ dot ∷ payload)

-- Where `rsplit` cuts.
record IsLastCut (s a b : Bytes) : Type 0 where
  joined : s ≡ a ++ dot ∷ b
  no_dot : All (λ c. c ≢ dot) b

abbrev CutAt : Bytes → Option (Bytes × Bytes) → Type 0
CutAt s none = All (λ c. c ≢ dot) s
CutAt s (some (a, b)) = IsLastCut s a b

cons-CutAt :
    (c : ℕ) (s : Bytes) (o : Option (Bytes × Bytes))
    → CutAt s o
    → CutAt (c ∷ s) (elim o [
      | some (a, b) ↦ some (c ∷ a, b)
      | none ↦ if nat_eq c dot then some ([], s) else none
    ])
cons-CutAt c s (some (a, b)) h = record {
  joined = ap (λ (x : Bytes). c ∷ x) h.joined;
  no_dot = h.no_dot;
}
cons-CutAt c s none h = elim (Bool-cases (nat_eq c dot)) [
  | inl e ↦ rw e (record { joined = ap (λ (x : ℕ). x ∷ s) (ground (arith, e)); no_dot = h })
  | inr e ↦ rw e (ground (arith, e), h)
]

rsplit_dot-CutAt : (s : Bytes) → CutAt s (rsplit_dot s)
unfolding rsplit_dot
rsplit_dot-CutAt [] = tt
rsplit_dot-CutAt (c ∷ s) = cons-CutAt c s (rsplit_dot s) (rsplit_dot-CutAt s)

split_dot-no_dot : (s : Bytes) → All (λ c. c ≢ dot) s → split_dot s ≡ none
unfolding split_dot
split_dot-no_dot [] h = refl
split_dot-no_dot (c ∷ s) (n, h) = rw (split_dot-no_dot s h) (ground (arith, n))

-- What a token was cut into has a dot.
load-split_dot :
    (json : Json) (jwt : Text) (l : Loaded)
    → load json jwt ≡ ok l
    → (p : Bytes × Bytes) × (two_parts (split_dot l.signing_input) ≡ ok p)
unfolding load
load-split_dot json jwt l h =
    let (t, e1, h1) = >>=-eq-ok (token_bytes jwt) _ h in
    let ((si, cs), e2, h2) = >>=-eq-ok (two_parts (rsplit_dot t)) _ h1 in
    let (p, e3, h3) = >>=-eq-ok (two_parts (split_dot si)) _ h2 in
    let (hd, e4, h4) =
      >>=-eq-ok (except_padding (base64url_decode (bytes p.0)) "Invalid header padding") _ h3 in
    let (v, e5, h5) =
      >>=-eq-ok (except_raise (json.loads hd) value_error decode_error "Invalid header string") _
        h4 in
    let (d, e6, h6) = >>=-eq-ok (as_dict v "Invalid header string: must be a json object") _ h5 in
    let (pl, e7, h7) =
      >>=-eq-ok (except_padding (base64url_decode (bytes p.1)) "Invalid payload padding") _ h6 in
    let (sg, e8, h8) =
      >>=-eq-ok (except_padding (base64url_decode (bytes cs)) "Invalid crypto padding") _ h7 in
    let same = ap (λ (r : Loaded). r.signing_input) (ok-injective h8) in
    (p, subst (λ (x : Bytes). two_parts (split_dot x) ≡ ok p) same e3)

cut_of_two_parts :
    (s : Bytes) (p : Bytes × Bytes) (o : Option (Bytes × Bytes))
    → two_parts (split_dot s) ≡ ok p
    → rsplit_dot s ≡ o
    → CutAt s o
    → (a : Bytes) × (b : Bytes) × (rsplit_dot s ≡ some (a, b)) × IsLastCut s a b
cut_of_two_parts s p none h e c = let h' = rw (split_dot-no_dot s c) at h in cc
cut_of_two_parts s p (some (a, b)) h e c = (a, b, e, c)

attach-detached :
    (l : Loaded) (detached_payload : Option Bytes) (payload si a b : Bytes)
    → is_false (get l.header "b64") ≡ true
    → rsplit_dot l.signing_input ≡ some (a, b)
    → IsLastCut l.signing_input a b
    → need_payload detached_payload l.signing_input ≡ ok (payload, si)
    → Covers l detached_payload payload si
unfolding detached_input
attach-detached l none payload si a b off e cut h = cc
attach-detached l (some p) payload si a b off e cut h =
    let same = ok-injective (rw e at h) in
    subst (λ (x : Bytes × Bytes). Covers l (some p) x.0 x.1) same
      (detached a b p off cut.joined cut.no_dot)

-- What `attach` makes of a loaded token is what the specification says.
pub attach-Covers :
    (json : Json) (jwt : Text) (l : Loaded) (detached_payload : Option Bytes) (payload si : Bytes)
    → load json jwt ≡ ok l
    → attach l detached_payload ≡ ok (payload, si)
    → Covers l detached_payload payload si
unfolding attach
attach-Covers json jwt l detached_payload payload si e h =
    elim (Bool-cases (is_false (get l.header "b64"))) [
      | inr on ↦
          subst (λ (x : Bytes × Bytes). Covers l detached_payload x.0 x.1)
            (ok-injective (rw on at h)) (own detached_payload on)
      | inl off ↦
          let (p, two) = load-split_dot json jwt l e in
          let (a, b, at_dot, cut) =
            cut_of_two_parts l.signing_input p (rsplit_dot l.signing_input) two refl
              (rsplit_dot-CutAt l.signing_input) in
          attach-detached l detached_payload payload si a b off at_dot cut (rw off at h)
    ]
