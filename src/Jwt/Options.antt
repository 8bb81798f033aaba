-- ===== src/Jwt/Options.antt =====
-- The options of class `PyJWT` of jwt/api_jwt.py, and `Options` and `FullOptions` of jwt/types.py.
use pyjwt.Prelude.{Bool, true, false, Option, none, some, String, List, [], if◌then◌else◌}
use pyjwt.Jws.State.{SomeSigOptions, or_else}

pub record FullOptions : Type 0 where
  pub verify_signature : Bool
  pub verify_exp : Bool
  pub verify_nbf : Bool
  pub verify_iat : Bool
  pub verify_aud : Bool
  pub verify_iss : Bool
  pub verify_sub : Bool
  pub verify_jti : Bool
  pub require : List String
  pub strict_aud : Bool
  pub enforce_minimum_key_length : Bool

-- As a caller passes them: entries may be missing.
pub record Options : Type 0 where
  pub verify_signature : Option Bool
  pub verify_exp : Option Bool
  pub verify_nbf : Option Bool
  pub verify_iat : Option Bool
  pub verify_aud : Option Bool
  pub verify_iss : Option Bool
  pub verify_sub : Option Bool
  pub verify_jti : Option Bool
  pub require : Option (List String)
  pub strict_aud : Option Bool
  pub enforce_minimum_key_length : Option Bool

-- {"verify_signature": False}
abbrev pub signature_off : Options
signature_off = record {
  verify_signature = some false;
  verify_exp = none;
  verify_nbf = none;
  verify_iat = none;
  verify_aud = none;
  verify_iss = none;
  verify_sub = none;
  verify_jti = none;
  require = none;
  strict_aud = none;
  enforce_minimum_key_length = none;
}

abbrev pub default_options : FullOptions
default_options = record {
  verify_signature = true;
  verify_exp = true;
  verify_nbf = true;
  verify_iat = true;
  verify_aud = true;
  verify_iss = true;
  verify_sub = true;
  verify_jti = true;
  require = [];
  strict_aud = false;
  enforce_minimum_key_length = false;
}

-- `_get_sig_options`
abbrev pub get_sig_options : FullOptions → SomeSigOptions
get_sig_options o = record {
  verify_signature = some o.verify_signature;
  enforce_minimum_key_length = some o.enforce_minimum_key_length;
}

abbrev pub or_require : Option (List String) → List String → List String
or_require none r = r
or_require (some q) r = q

-- {**self.options, **options}
unfoldable pub override : FullOptions → Options → FullOptions
override o given = record {
  verify_signature = or_else given.verify_signature o.verify_signature;
  verify_exp = or_else given.verify_exp o.verify_exp;
  verify_nbf = or_else given.verify_nbf o.verify_nbf;
  verify_iat = or_else given.verify_iat o.verify_iat;
  verify_aud = or_else given.verify_aud o.verify_aud;
  verify_iss = or_else given.verify_iss o.verify_iss;
  verify_sub = or_else given.verify_sub o.verify_sub;
  verify_jti = or_else given.verify_jti o.verify_jti;
  require = or_require given.require o.require;
  strict_aud = or_else given.strict_aud o.strict_aud;
  enforce_minimum_key_length =
      or_else given.enforce_minimum_key_length o.enforce_minimum_key_length;
}

-- The entries that `_merge_options` writes into the caller's dict.
unfoldable pub turn_off : Options → Options
turn_off given = record given {
  verify_exp = some (or_else given.verify_exp false);
  verify_nbf = some (or_else given.verify_nbf false);
  verify_iat = some (or_else given.verify_iat false);
  verify_aud = some (or_else given.verify_aud false);
  verify_iss = some (or_else given.verify_iss false);
  verify_sub = some (or_else given.verify_sub false);
  verify_jti = some (or_else given.verify_jti false);
}

-- The caller's dict after the call.
unfoldable pub mutate : Options → Options
unfolding turn_off
mutate given = if or_else given.verify_signature true then given else turn_off given

-- `_merge_options`: the merged options, and the caller's dict, which it changes.
unfoldable pub merge_options : FullOptions → Option Options → FullOptions × Option Options
unfolding override mutate
merge_options o none = (o, none)
merge_options o (some given) = (override o (mutate given), some (mutate given))
