-- ===== src/Algorithms/RsaLaws.antt =====
-- Which keys and signatures `RSAAlgorithm` and `RSAPSSAlgorithm` of jwt/algorithms.py accept.
use pyjwt.Prelude.{Bool, true, false, ◌&&◌, ◌≡◌, refl, inl, inr, not, if◌then◌else◌}
use pyjwt.Errors.{Result, ok, except_raise, value_error, invalid_key_error, unsupported_algorithm}
use pyjwt.Errors.Bind.{>>=-eq-ok, raise_if-eq-ok, except_raise-eq-ok}
use pyjwt.Value.{Dict, has}
use pyjwt.Utils.Text.{Bytes, Text, force_bytes}
use pyjwt.Utils.KeyFormats.{codes, starts_with}
use pyjwt.Algorithms.{Key, no_key, secret, object, Hash}
use pyjwt.Algorithms.Crypto.{
  Cryptography, KeyClass, rsa_private_key, rsa_public_key, Padding, is_one_of, load_checked,
}
use pyjwt.Algorithms.KeyChecks.{HasClass, load_checked-HasClass, except_try-eq-ok, accepted-eq-true}
use pyjwt.Algorithms.Rsa.{
  rsa_key_types, unparsed, first_key, second_key, checked_object, load_rsa_key, prepare_rsa_key,
  verify_with, rsa_verify,
}
use pyjwt.Algorithms.RsaJwk.{private_from_jwk, any_in, all_in, other_props}

module _ {O : Type 0} (c : Cryptography O) where
  checked_object-HasClass :
      (loaded : Result O) (key : Key O)
      → checked_object c loaded ≡ ok key
      → HasClass c rsa_key_types key
  checked_object-HasClass loaded key h =
      let (o, checked, same) = >>=-eq-ok (load_checked c rsa_key_types loaded) _ h in
      (o, cc, load_checked-HasClass c rsa_key_types loaded o checked)

  first_load-HasClass :
      (ssh : Bool) (loaded loaded' : Result O) (key : Key O)
      → (if ssh then checked_object c loaded else checked_object c loaded') ≡ ok key
      → HasClass c rsa_key_types key
  first_load-HasClass true loaded loaded' key h = checked_object-HasClass loaded key h
  first_load-HasClass false loaded loaded' key h = checked_object-HasClass loaded' key h

  second_load-HasClass :
      (loaded : Result O) (key : Key O)
      → except_raise
          (except_raise (checked_object c loaded) value_error invalid_key_error unparsed)
          unsupported_algorithm
          invalid_key_error
          unparsed
        ≡ ok key
      → HasClass c rsa_key_types key
  second_load-HasClass loaded key h =
      let tried = except_raise (checked_object c loaded) value_error invalid_key_error unparsed in
      checked_object-HasClass loaded key (
        except_raise-eq-ok (checked_object c loaded) value_error invalid_key_error unparsed
          (except_raise-eq-ok tried unsupported_algorithm invalid_key_error unparsed h))

  load_rsa_key-HasClass :
      (bs : Bytes) (key : Key O) → load_rsa_key c bs ≡ ok key → HasClass c rsa_key_types key
  unfolding load_rsa_key
  load_rsa_key-HasClass bs key h =
      elim (except_try-eq-ok (first_key c bs) value_error (second_key c bs) h) [
        | inl first ↦
            first_load-HasClass (starts_with bs (codes "ssh-rsa")) (c.load_ssh_public_key bs)
              (c.load_pem_private_key bs) key first
        | inr second ↦ second_load-HasClass (c.load_pem_public_key bs) key second
      ]

  object-HasClass :
      (o : O) (key : Key O) (t : Bool) (r : Result (Key O))
      → is_one_of (c.class_of o) rsa_key_types ≡ t
      → prepare_rsa_key c (object o) ≡ ok key
      → HasClass c rsa_key_types key
  unfolding prepare_rsa_key
  object-HasClass o key true r e h = (o, let h' = rw e at h in cc, e)
  object-HasClass o key false r e h = let h' = rw e at h in cc

  pub prepare_rsa_key-HasClass :
      (key prepared : Key O)
      → prepare_rsa_key c key ≡ ok prepared
      → HasClass c rsa_key_types prepared
  unfolding prepare_rsa_key
  prepare_rsa_key-HasClass no_key prepared h = cc
  prepare_rsa_key-HasClass (object o) prepared h = object-HasClass o prepared _ (ok prepared) refl h
  prepare_rsa_key-HasClass (secret Text.other) prepared h = cc
  prepare_rsa_key-HasClass (secret (Text.bytes b)) prepared h = load_rsa_key-HasClass b prepared h
  prepare_rsa_key-HasClass (secret (Text.str s)) prepared h =
      let (bs, e, h') = >>=-eq-ok (force_bytes (Text.str s)) _ h in
      load_rsa_key-HasClass bs prepared h'

  verify_with-eq-true :
      (k : KeyClass) (h : Hash) (p : Padding) (msg : Bytes) (o : O) (sig : Bytes)
      → verify_with c k h p msg o sig ≡ ok true
      → (k ≡ rsa_public_key) × (c.rsa_verify o sig msg p h ≡ ok tt)
  verify_with-eq-true rsa_public_key h p msg o sig e = (refl, accepted-eq-true _ e)
  verify_with-eq-true rsa_private_key h p msg o sig e = cc
  verify_with-eq-true _ h p msg o sig e = cc

  -- An accepted signature was accepted by the package, with a public RSA key.
  pub rsa_verify-eq-true :
      (h : Hash) (p : Padding) (msg : Bytes) (key : Key O) (sig : Bytes)
      → rsa_verify c h p msg key sig ≡ ok true
      → (o : O) × (key ≡ object o)
        × (c.class_of o ≡ rsa_public_key)
        × (c.rsa_verify o sig msg p h ≡ ok tt)
  unfolding rsa_verify
  rsa_verify-eq-true h p msg no_key sig e = cc
  rsa_verify-eq-true h p msg (secret t) sig e = cc
  rsa_verify-eq-true h p msg (object o) sig e =
      let (is_public, verified) = verify_with-eq-true (c.class_of o) h p msg o sig e in
      (o, refl, is_public, verified)

  private_from_jwk-eq-ok :
      (d : Dict) (o : O)
      → private_from_jwk c d ≡ ok o
      → (has d "oth" ≡ false) × ((any_in d other_props && not (all_in d other_props)) ≡ false)
  unfolding private_from_jwk
  private_from_jwk-eq-ok d o h =
      let (no_oth, h1) = raise_if-eq-ok (has d "oth") _ _ _ h in
      let (complete, h2) =
        raise_if-eq-ok (any_in d other_props && not (all_in d other_props)) _ _ _ h1 in
      (no_oth, complete)
