-- ===== src/Auth/Accounts.antt =====
-- Accounts (packages/api/src/modules/auth/auth.service.ts).
use text.Mathlib.TextLemmas.{cons-append}
use mini_rewards_integration.Prelude.{
  ℕ, String, Bool, true, false, ◌≡◌, ◌≢◌, refl, ap, subst, Option, none, some, List, [], ◌∷◌, ◌==◌,
  eq_refl, unique_eq, find?, exists, Bool-cases, Option-cases, or_default, inl, inr,
}
use mini_rewards_integration.Prelude.Texts.{cons-present}
use mini_rewards_integration.Database.Schema.{User, Db}
use mini_rewards_integration.Database.Exec.{
  email_already_registered, ok, err, Session, pure, ◌>>=◌, transaction,
}
use mini_rewards_integration.Database.Ends.{Ends, Ends-bind, transaction-ok}
use mini_rewards_integration.Auth.Passwords.{
  PasswordPlatform, key_length, own_options, hash_password, verify_password,
}
use mini_rewards_integration.Auth.Keys.{
  IsPasswordPlatform, hash_password-verify_password, verify_password_other,
}
use mini_rewards_integration.Auth.{
  AuthPlatform, SessionUser, session_user, RegisterInput, normalise_email, has_email, insert_user,
  RegisterDraws, settled, new_user, register_unless_taken, register, authenticated,
  authenticate_found, authenticate,
}

abbrev pub with_user : User → Db → Db
with_user u db = record db { users = u ∷ db.users }

insert_user-Placed :
    (row : User) (s : Session)
    → Ends (λ created s'. (created ≡ row) × (s'.db ≡ with_user row s.db)) (insert_user row s)
unfolding insert_user
insert_user-Placed row s = elim (Bool-cases (exists (λ u. u.id == row.id) s.db.users)) [
  | inl taken ↦ rw taken tt
  | inr free ↦ elim (Bool-cases (exists (λ u. u.external_ref == row.external_ref) s.db.users)) [
    | inl taken ↦ rw (free, taken) tt
    | inr unnamed ↦ elim (Bool-cases (exists (λ u. unique_eq u.email row.email) s.db.users)) [
      | inl taken ↦ rw (free, unnamed, taken) tt
      | inr unused ↦ rw (free, unnamed, unused) (refl, refl)
    ]
  ]
]

module _ (platform : AuthPlatform) (draws : RegisterDraws) (input : RegisterInput) where
  pub record Registered (before : Db) (account : SessionUser) (tables : Db) : Type 0 where
    pub password_hash : String
    pub hashed : hash_password platform.passwords draws.salt input.password ≡ some password_hash
    pub created : account ≡ session_user (new_user platform draws input password_hash)
    pub after : tables ≡ with_user (new_user platform draws input password_hash) before

  register_hashed :
      (o : Option String) (s : Session)
      → hash_password platform.passwords draws.salt input.password ≡ o
      → Ends
          (λ created s'. Registered s.db created s'.db)
          ((do
            password_hash ← settled o
            created ← insert_user (new_user platform draws input password_hash)
            pure (session_user created))
            s)
  register_hashed none s h = tt
  register_hashed (some password_hash) s h =
      Ends-bind (λ created s'. Registered s.db created s'.db)
        (insert_user (new_user platform draws input password_hash)) _ s
        (insert_user-Placed (new_user platform draws input password_hash) s)
        λ row s' placed. record {
          password_hash = password_hash;
          hashed = h;
          created = ap session_user placed.0;
          after = placed.1;
        }

  register_found :
      (found : Option User) (s : Session)
      → Ends
          (λ created s'. Registered s.db created s'.db)
          (register_unless_taken platform draws input found s)
  unfolding register_unless_taken
  register_found none s = register_hashed _ s refl
  register_found (some u) s = tt

  pub register-Ends :
      (s : Session)
      → Ends (λ created s'. Registered s.db created s'.db) (register platform draws input s)
  unfolding register
  register-Ends s =
      register_found (find? (has_email (normalise_email platform input.email)) s.db.users) s

  register-Registered :
      (db : Db) {created : SessionUser} {after : Db}
      → transaction (register platform draws input) db ≡ (ok created, after)
      → Registered db created after
  register-Registered db h =
      transaction-ok (λ created after. Registered db created after) (register platform draws input)
        db (register-Ends (record { db = db; locks = [] })) h

stored-present :
    (platform : PasswordPlatform) (salt : List ℕ) (password : String) {stored : String}
    → hash_password platform salt password ≡ some stored
    → (stored == "") ≡ false
unfolding hash_password
stored-present platform salt password h =
    elim (Option-cases (platform.scrypt password salt key_length (own_options platform))) [
      | inl refused ↦ cc (rw refused at h)
      | inr (key, derived) ↦
          subst (λ text. (text == "") ≡ false) (ap (λ o. or_default o "") (rw derived at h))
            (rw (cons-append "s" "crypt" _) (cons-present "s" _))
    ]

module _ (platform : AuthPlatform) (laws : IsPasswordPlatform platform.passwords)
    (draws : RegisterDraws) (input : RegisterInput) (salt_head : ℕ) (salt : List ℕ)
    (salted : draws.salt ≡ salt_head ∷ salt) (db : Db) {created : SessionUser} {after : Db}
    (done : transaction (register platform draws input) db ≡ (ok created, after)) where
  login_lem :
      (fresh_salt : List ℕ) (email password : String) (valid : Bool)
      → normalise_email platform email ≡ normalise_email platform input.email
      → let r = register-Registered platform draws input db done in
        verify_password platform.passwords password r.password_hash ≡ some valid
        → transaction (authenticate platform fresh_salt email password) after
          ≡ (ok (authenticated (new_user platform draws input r.password_hash) valid), after)
  unfolding authenticate authenticate_found
  login_lem fresh_salt email password valid same verdict =
      let r = register-Registered platform draws input db done in
      rw
        (
          r.after,
          same,
          eq_refl (normalise_email platform input.email),
          stored-present platform.passwords draws.salt input.password r.hashed,
        )
        (rw (authenticate_found, verdict) refl)

  -- After a registration, a login with the same address, up to the spaces and the case that
  -- `normaliseEmail` takes away, and with the same password gives the account that the registration
  -- answered, and changes nothing. The salt that the registration drew is not empty.
  pub register-authenticate :
      (fresh_salt : List ℕ) (email : String)
      → normalise_email platform email ≡ normalise_email platform input.email
      → transaction (authenticate platform fresh_salt email input.password) after
        ≡ (ok (some created), after)
  unfolding authenticated
  register-authenticate fresh_salt email same =
      let r = register-Registered platform draws input db done in
      let h : hash_password platform.passwords (salt_head ∷ salt) input.password
          ≡ some r.password_hash =
        rw salted at r.hashed in
      let accepted =
        (hash_password-verify_password platform.passwords laws salt_head salt input.password
            input.password h).1
          refl in
      rw r.created (login_lem fresh_salt email input.password true same accepted)

  -- After a registration, a login with the same address, as above, and with a password from which scrypt
  -- derives another key under the salt drawn gives nobody, and changes nothing.
  pub register-authenticate_other :
      (fresh_salt : List ℕ) (email password : String) {key : List ℕ}
      → normalise_email platform email ≡ normalise_email platform input.email
      → platform.passwords.scrypt password
          (salt_head ∷ salt)
          key_length
          (own_options platform.passwords)
        ≡ some key
      → platform.passwords.scrypt password
          (salt_head ∷ salt)
          key_length
          (own_options platform.passwords)
        ≢ platform.passwords.scrypt input.password
            (salt_head ∷ salt)
            key_length
            (own_options platform.passwords)
      → transaction (authenticate platform fresh_salt email password) after ≡ (ok none, after)
  unfolding authenticated
  register-authenticate_other fresh_salt email password same derives differs =
      let r = register-Registered platform draws input db done in
      let h : hash_password platform.passwords (salt_head ∷ salt) input.password
          ≡ some r.password_hash =
        rw salted at r.hashed in
      login_lem fresh_salt email password false same (
        verify_password_other platform.passwords laws salt_head salt input.password password h
          derives differs)

-- Once an address is registered, every later registration of it, up to spaces and case, is refused as
-- taken, whatever it draws, and changes nothing.
pub register_once :
    (platform : AuthPlatform) (draws later : RegisterDraws) (input again : RegisterInput) (db : Db)
    {created : SessionUser} {after : Db}
    → transaction (register platform draws input) db ≡ (ok created, after)
    → normalise_email platform again.email ≡ normalise_email platform input.email
    → transaction (register platform later again) after ≡ (err email_already_registered, after)
unfolding register register_unless_taken
register_once platform draws later input again db done same =
    let r = register-Registered platform draws input db done in
    rw (r.after, same, eq_refl (normalise_email platform input.email)) refl
