-- ===== src/Jwt/MergeLaws.antt =====
-- `_merge_options` of jwt/api_jwt.py: which checks are on.
use pyjwt.Prelude.{Bool, true, false, ◌&&◌, ◌≡◌, refl, Option, some, Bool-cases, inl, inr}
use pyjwt.Jws.State.{or_else}
use pyjwt.Jwt.Options.{FullOptions, Options, override, turn_off, mutate, merge_options}

-- The checks that an option turns on or off.
pub data Check : Type 0 where
  exp nbf iat aud iss sub jti : Check

abbrev pub is_on : Check → FullOptions → Bool
is_on exp o = o.verify_exp
is_on nbf o = o.verify_nbf
is_on iat o = o.verify_iat
is_on aud o = o.verify_aud
is_on iss o = o.verify_iss
is_on sub o = o.verify_sub
is_on jti o = o.verify_jti

abbrev pub given_for : Check → Options → Option Bool
given_for exp o = o.verify_exp
given_for nbf o = o.verify_nbf
given_for iat o = o.verify_iat
given_for aud o = o.verify_aud
given_for iss o = o.verify_iss
given_for sub o = o.verify_sub
given_for jti o = o.verify_jti

is_on-turn_off :
    (o : FullOptions) (given : Options) (c : Check)
    → is_on c (override o (turn_off given)) ≡ or_else (given_for c given) false
unfolding override turn_off
is_on-turn_off o given exp = refl
is_on-turn_off o given nbf = refl
is_on-turn_off o given iat = refl
is_on-turn_off o given aud = refl
is_on-turn_off o given iss = refl
is_on-turn_off o given sub = refl
is_on-turn_off o given jti = refl

is_on-override :
    (o : FullOptions) (given : Options) (c : Check)
    → is_on c (override o given) ≡ or_else (given_for c given) (is_on c o)
unfolding override
is_on-override o given exp = refl
is_on-override o given nbf = refl
is_on-override o given iat = refl
is_on-override o given aud = refl
is_on-override o given iss = refl
is_on-override o given sub = refl
is_on-override o given jti = refl

mutate-on : (given : Options) → or_else given.verify_signature true ≡ true → mutate given ≡ given
unfolding mutate
mutate-on given on = rw on

mutate-off :
    (given : Options) → or_else given.verify_signature true ≡ false → mutate given ≡ turn_off given
unfolding mutate
mutate-off given off = rw off

-- A check that the caller's options name is as they say. Any other is off if they turn the signature
-- check off, and as in the object's options if not. Merging the dict that the call leaves behind
-- gives the same options again.
pub merge_options_lem :
    (o : FullOptions) (given : Options) (c : Check)
    → (is_on c (merge_options o (some given)).0
        ≡ or_else (given_for c given) (or_else given.verify_signature true && is_on c o))
      × ((merge_options o (merge_options o (some given)).1).0 ≡ (merge_options o (some given)).0)
unfolding merge_options
merge_options_lem o given c = elim (Bool-cases (or_else given.verify_signature true)) [
  | inl on ↦ let same = mutate-on given on in rw (same, same, on) (is_on-override o given c, refl)
  | inr off ↦ rw (mutate-off given off, off) (is_on-turn_off o given c, refl)
]
