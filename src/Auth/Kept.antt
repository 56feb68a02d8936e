-- ===== src/Auth/Kept.antt =====
-- The sessions and accounts of packages/api/src/modules/auth/auth.service.ts, and the properties that the
-- ledger keeps.
use mini_rewards_integration.Prelude.{
  ℕ, String, ◌==◌, unique_eq, inl, inr, refl, exists, Option, none, some, List, Bool-cases,
}
use mini_rewards_integration.Database.Schema.{User, LoginSession, Db}
use mini_rewards_integration.Database.Keeps.{Keeps, keeps_rules}
use mini_rewards_integration.Ledger.Invariant.{IsLedgerInvariant}
use mini_rewards_integration.Auth.{
  AuthPlatform, insert_session, delete_sessions, create_session, resolve_found, resolve_row,
  resolve_session, destroy_session, RegisterInput, insert_user, RegisterDraws, settled,
  register_unless_taken, register, authenticate_found, authenticate,
}

module _ (P : Db → Type 0) (laws : IsLedgerInvariant P) where
  insert_session-Keeps : (row : LoginSession) → Keeps P (insert_session row)
  unfolding insert_session
  insert_session-Keeps row = record {
    at = λ s h. elim (Bool-cases (exists (λ x. x.id == row.id) s.db.sessions)) [
      | inl taken ↦ rw taken tt
      | inr free ↦ elim (Bool-cases (exists (λ u. u.id == row.user_id) s.db.users)) [
        | inl known ↦ rw (free, known) (laws.apart s.db _ refl refl h)
        | inr unknown ↦ rw (free, unknown) tt
      ]
    ];
  }

  delete_sessions-Keeps : (id : String) → Keeps P (delete_sessions id)
  unfolding delete_sessions
  delete_sessions-Keeps id = record { at = λ s h. laws.apart s.db _ refl refl h }

  insert_user-Keeps : (row : User) → Keeps P (insert_user row)
  unfolding insert_user
  insert_user-Keeps row = record {
    at = λ s h. elim (Bool-cases (exists (λ u. u.id == row.id) s.db.users)) [
      | inl taken ↦ rw taken tt
      | inr free ↦ elim (Bool-cases (exists (λ u. u.external_ref == row.external_ref) s.db.users)) [
        | inl taken ↦ rw (free, taken) tt
        | inr unnamed ↦ elim (Bool-cases (exists (λ u. unique_eq u.email row.email) s.db.users)) [
          | inl taken ↦ rw (free, unnamed, taken) tt
          | inr unused ↦ rw (free, unnamed, unused) (laws.apart s.db _ refl refl h)
        ]
      ]
    ];
  }

  settled-Keeps : {A : Type 0} (o : Option A) → Keeps P (settled o)
  settled-Keeps none = search keeps_rules
  settled-Keeps (some a) = search keeps_rules

  ruleset account_rules =
      (keeps_rules, insert_session-Keeps, delete_sessions-Keeps, insert_user-Keeps, settled-Keeps)

  module _ (platform : AuthPlatform) where
    pub create_session-Keeps :
        (token : String) (now : ℕ) (user_id : String)
        → Keeps P (create_session platform token now user_id)
    unfolding create_session
    create_session-Keeps token now user_id = search account_rules

    resolve_found-Keeps :
        (now : ℕ) (token : String) (session : LoginSession) (owner : Option User)
        → Keeps P (resolve_found platform now token session owner)
    unfolding resolve_found
    resolve_found-Keeps now token session none = search account_rules
    resolve_found-Keeps now token session (some owner) = search account_rules

    resolve_row-Keeps :
        (now : ℕ) (token : String) (session : Option LoginSession)
        → Keeps P (resolve_row platform now token session)
    unfolding resolve_row
    resolve_row-Keeps now token none = search account_rules
    resolve_row-Keeps now token (some session) = search (account_rules, resolve_found-Keeps)

    pub resolve_session-Keeps :
        (now : ℕ) (token : String) → Keeps P (resolve_session platform now token)
    unfolding resolve_session
    resolve_session-Keeps now token = search (account_rules, resolve_row-Keeps)

    pub destroy_session-Keeps : (token : String) → Keeps P (destroy_session platform token)
    unfolding destroy_session
    destroy_session-Keeps token = search account_rules

    register_unless_taken-Keeps :
        (draws : RegisterDraws) (input : RegisterInput) (found : Option User)
        → Keeps P (register_unless_taken platform draws input found)
    unfolding register_unless_taken
    register_unless_taken-Keeps draws input none = search account_rules
    register_unless_taken-Keeps draws input (some u) = search account_rules

    pub register-Keeps :
        (draws : RegisterDraws) (input : RegisterInput) → Keeps P (register platform draws input)
    unfolding register
    register-Keeps draws input = search (account_rules, register_unless_taken-Keeps)

    authenticate_found-Keeps :
        (salt : List ℕ) (password : String) (found : Option (User × String))
        → Keeps P (authenticate_found platform salt password found)
    unfolding authenticate_found
    authenticate_found-Keeps salt password none = search account_rules
    authenticate_found-Keeps salt password (some (u, stored)) = search account_rules

    pub authenticate-Keeps :
        (salt : List ℕ) (email password : String)
        → Keeps P (authenticate platform salt email password)
    unfolding authenticate
    authenticate-Keeps salt email password = search (account_rules, authenticate_found-Keeps)
