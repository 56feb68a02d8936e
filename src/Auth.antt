-- ===== src/Auth.antt =====
-- packages/api/src/modules/auth/auth.service.ts: sessions and accounts. A token, an id, a salt and the
-- clock are arguments, and so is what the runtime does with texts and hashes.
pub mod Passwords
pub mod Parts
pub mod Keys
pub mod Sessions
pub mod Accounts
pub mod Kept
use Prim.Native.String.{◌++◌}
use Passwords.{PasswordPlatform, hash_password, verify_password}
use mini_rewards_integration.Prelude.{
  ℕ, ◌+◌, ◌*◌, String, Bool, true, false, Option, none, some, List, ◌∷◌, ◌==◌, leb, null_eq,
  unique_eq, find?, exists, not, select, if◌then◌else◌,
}
use mini_rewards_integration.Database.Schema.{UserRole, user, User, LoginSession, Db}
use mini_rewards_integration.Database.Exec.{
  unique_violation, foreign_key_violation, email_already_registered, unexpected, database, ok, err,
  Action, pure, raise, ◌>>=◌, ◌>>◌, query, execute,
}

pub record AuthPlatform : Type 0 where
  pub passwords : PasswordPlatform
  -- `createHash('sha256').update(token).digest('hex')`
  pub sha256_hex : String → String
  -- `trim()` and `toLowerCase()`
  pub trim : String → String
  pub to_lower_case : String → String
  -- `env.NODE_ENV === 'production'`
  pub production : Bool

abbrev pub session_ttl_ms : ℕ
session_ttl_ms = 7 * 24 * 60 * 60 * 1000

unfoldable pub hash_token : AuthPlatform → String → String
hash_token platform token = platform.sha256_hex token

pub record IssuedSession : Type 0 where
  pub token : String
  pub expires_at : ℕ

pub record SessionUser : Type 0 where
  pub id : String
  pub external_ref : String
  pub display_name : String
  pub role : UserRole

abbrev pub session_user : User → SessionUser
session_user u = record {
  id = u.id;
  external_ref = u.external_ref;
  display_name = u.display_name;
  role = u.role;
}

-- `session.create`: the primary key, and the user that it refers to
unfoldable pub insert_session : LoginSession → Action Unit
insert_session row s =
    if exists (λ x. x.id == row.id) s.db.sessions
    then (err (database unique_violation), s)
    else if exists (λ u. u.id == row.user_id) s.db.users
    then (ok tt, record s { db = record s.db { sessions = row ∷ s.db.sessions } })
    else (err (database foreign_key_violation), s)

-- `session.deleteMany({ where: { id } })`
unfoldable pub delete_sessions : String → Action Unit
delete_sessions id =
    execute (λ db. record db { sessions = select (λ x. not (x.id == id)) db.sessions })

unfoldable pub create_session : AuthPlatform → String → ℕ → String → Action IssuedSession
create_session platform token now user_id = do
  insert_session (record {
    id = hash_token platform token;
    user_id = user_id;
    expires_at = now + session_ttl_ms;
    created_at = now;
  })
  pure (record { token = token; expires_at = now + session_ttl_ms })

-- With the session and its user read: an expired session is deleted on the way past.
unfoldable pub resolve_found :
    AuthPlatform → ℕ → String → LoginSession → Option User → Action (Option SessionUser)
resolve_found platform now token session none = raise (
    unexpected
      "Inconsistent query result: Field user is required to return data, got `null` instead.")
resolve_found platform now token session (some owner) =
    if leb session.expires_at now
    then (do delete_sessions (hash_token platform token); pure none)
    else pure (some (session_user owner))

unfoldable pub resolve_row :
    AuthPlatform → ℕ → String → Option LoginSession → Action (Option SessionUser)
resolve_row platform now token none = pure none
resolve_row platform now token (some session) = do
  owner ← query (λ db. find? (λ u. u.id == session.user_id) db.users)
  resolve_found platform now token session owner

unfoldable pub resolve_session : AuthPlatform → ℕ → String → Action (Option SessionUser)
resolve_session platform now token = do
  session ← query (λ db. find? (λ x. x.id == hash_token platform token) db.sessions)
  resolve_row platform now token session

unfoldable pub destroy_session : AuthPlatform → String → Action Unit
destroy_session platform token = delete_sessions (hash_token platform token)

pub record RegisterInput : Type 0 where
  pub email : String
  pub password : String
  pub display_name : String

unfoldable pub normalise_email : AuthPlatform → String → String
normalise_email platform email = platform.to_lower_case (platform.trim email)

abbrev pub has_email : String → User → Bool
has_email email u = null_eq u.email email

-- `user.create`: the primary key and the two unique columns
unfoldable pub insert_user : User → Action User
insert_user row s =
    if exists (λ u. u.id == row.id) s.db.users
    then (err (database unique_violation), s)
    else if exists (λ u. u.external_ref == row.external_ref) s.db.users
    then (err (database unique_violation), s)
    else if exists (λ u. unique_eq u.email row.email) s.db.users
    then (err (database unique_violation), s)
    else (ok row, record s { db = record s.db { users = row ∷ s.db.users } })

-- What a registration draws: the row's id, the text of `randomUUID`, the salt and the clock.
pub record RegisterDraws : Type 0 where
  pub id : String
  pub uuid : String
  pub salt : List ℕ
  pub now : ℕ

-- `await` of a promise that may reject
abbrev pub settled : {A : Type 0} → Option A → Action A
settled none = raise (unexpected "scrypt")
settled (some a) = pure a

abbrev pub new_user : AuthPlatform → RegisterDraws → RegisterInput → String → User
new_user platform draws input password_hash = record {
  id = draws.id;
  external_ref = "local:" ++ draws.uuid;
  display_name = platform.trim input.display_name;
  email = some (normalise_email platform input.email);
  password_hash = some password_hash;
  role = UserRole.user;
  created_at = draws.now;
}

unfoldable pub register_unless_taken :
    AuthPlatform → RegisterDraws → RegisterInput → Option User → Action SessionUser
register_unless_taken platform draws input (some existing) = raise email_already_registered
register_unless_taken platform draws input none = do
  password_hash ← settled (hash_password platform.passwords draws.salt input.password)
  created ← insert_user (new_user platform draws input password_hash)
  pure (session_user created)

unfoldable pub register : AuthPlatform → RegisterDraws → RegisterInput → Action SessionUser
register platform draws input = do
  existing ← query (λ db. find? (has_email (normalise_email platform input.email)) db.users)
  register_unless_taken platform draws input existing

-- `user?.passwordHash`, and nothing for an empty one
abbrev pub usable_hash : Option User → Option (User × String)
usable_hash none = none
usable_hash (some u) = elim u.password_hash [
  | none ↦ none
  | some stored ↦ if stored == "" then none else some (u, stored)
]

unfoldable pub authenticated : User → Bool → Option SessionUser
authenticated u true = some (session_user u)
authenticated u false = none

-- Without an account or a hash the password is hashed all the same, with the salt drawn, for its time.
unfoldable pub authenticate_found :
    AuthPlatform → List ℕ → String → Option (User × String) → Action (Option SessionUser)
authenticate_found platform salt password none = do
  settled (hash_password platform.passwords salt password)
  pure none
authenticate_found platform salt password (some (u, stored)) = do
  valid ← settled (verify_password platform.passwords password stored)
  pure (authenticated u valid)

unfoldable pub authenticate : AuthPlatform → List ℕ → String → String → Action (Option SessionUser)
authenticate platform salt email password = do
  found ← query (λ db. usable_hash (find? (has_email (normalise_email platform email)) db.users))
  authenticate_found platform salt password found
