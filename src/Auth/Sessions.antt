-- ===== src/Auth/Sessions.antt =====
-- The life of a session (packages/api/src/modules/auth/auth.service.ts).
use mini_rewards_integration.Prelude.{
  ℕ, ◌+◌, String, not, ◌≡◌, ◌≢◌, refl, ap, subst, Option, none, some, List, [], ◌∷◌, ◌==◌, eq_iff,
  eq_refl, leb, ltb, arith, find?, exists, select, Bool-cases, inl, inr, if◌then◌else◌,
}
use mini_rewards_integration.Database.Schema.{User, LoginSession, Db}
use mini_rewards_integration.Database.Exec.{ok, Session, transaction}
use mini_rewards_integration.Database.Ends.{Ends, transaction-ok}
use mini_rewards_integration.Auth.{
  AuthPlatform, session_ttl_ms, hash_token, IssuedSession, session_user, insert_session,
  delete_sessions, create_session, resolve_found, resolve_row, resolve_session, destroy_session,
}

-- The sessions without those under an id.
abbrev pub without : String → Db → Db
without id db = record db { sessions = select (λ x. not (x.id == id)) db.sessions }

find-without :
    (id : String) (rows : List LoginSession)
    → find? (λ x. x.id == id) (select (λ x. not (x.id == id)) rows) ≡ none
find-without id [] = refl
find-without id (x ∷ xs) = ground (arith, find-without id xs)

find-without_other :
    (id other : String) (rows : List LoginSession)
    → other ≢ id
    → find? (λ x. x.id == other) (select (λ x. not (x.id == id)) rows)
      ≡ find? (λ x. x.id == other) rows
find-without_other id other [] h = refl
find-without_other id other (x ∷ xs) h =
    ground (arith, find-without_other id other xs h, eq_iff x.id other, eq_iff x.id id)

-- Once logged out, a token resolves to nobody, at any time and on every later request.
pub destroy_session_revokes :
    (platform : AuthPlatform) (token : String) (now : ℕ) (db : Db) {after : Db}
    → transaction (destroy_session platform token) db ≡ (ok tt, after)
    → transaction (resolve_session platform now token) after ≡ (ok none, after)
unfolding destroy_session delete_sessions resolve_session resolve_row
destroy_session_revokes platform token now db {after} h =
    let gone : without (hash_token platform token) db ≡ after = ap (λ r. r.1) h in
    subst (λ d. transaction (resolve_session platform now token) d ≡ (ok none, d)) gone
      (rw (find-without (hash_token platform token) db.sessions, resolve_row))

spares_none :
    (platform : AuthPlatform) (token other : String) (now : ℕ) (db : Db)
    → (transaction (resolve_row platform now other none) (without (hash_token platform token) db)).0
      ≡ (transaction (resolve_row platform now other none) db).0
unfolding resolve_row
spares_none platform token other now db = refl

spares_found :
    (platform : AuthPlatform) (token other : String) (now : ℕ) (db : Db) (session : LoginSession)
    (found : Option User)
    → (transaction
        (resolve_found platform now other session found)
        (without (hash_token platform token) db)).0
      ≡ (transaction (resolve_found platform now other session found) db).0
unfolding resolve_found delete_sessions
spares_found platform token other now db session none = refl
spares_found platform token other now db session (some owner) =
    elim (Bool-cases (leb session.expires_at now)) [
      | inl late ↦ rw late refl
      | inr early ↦ rw early refl
    ]

-- Logging out ends no other session: a token with another hash resolves as it did.
destroy_session_spares :
    (platform : AuthPlatform) (token other : String) (now : ℕ) (db : Db)
    → hash_token platform other ≢ hash_token platform token
    → (transaction
        (resolve_session platform now other)
        (transaction (destroy_session platform token) db).1).0
      ≡ (transaction (resolve_session platform now other) db).0
unfolding destroy_session delete_sessions resolve_session resolve_row
destroy_session_spares platform token other now db h =
    rw (find-without_other (hash_token platform token) (hash_token platform other) db.sessions h)
      (answers (find? (λ x. x.id == hash_token platform other) db.sessions))
  where
    answers :
        (found : Option LoginSession)
        → (transaction
            (resolve_row platform now other found)
            (without (hash_token platform token) db)).0
          ≡ (transaction (resolve_row platform now other found) db).0
    answers none = spares_none platform token other now db
    answers (some session) =
        spares_found platform token other now db session
          (find? (λ u. u.id == session.user_id) db.users)

abbrev pub row_of : AuthPlatform → String → ℕ → String → LoginSession
row_of platform token issued_at user_id = record {
  id = hash_token platform token;
  user_id = user_id;
  expires_at = issued_at + session_ttl_ms;
  created_at = issued_at;
}

abbrev pub with_row : LoginSession → Db → Db
with_row row db = record db { sessions = row ∷ db.sessions }

-- A session issued: its expiry, and its row.
pub create_session-Ends :
    (platform : AuthPlatform) (token : String) (issued_at : ℕ) (user_id : String) (s : Session)
    → Ends
        (λ issued s'.
          (issued.token ≡ token)
          × (issued.expires_at ≡ issued_at + session_ttl_ms)
          × (s'.db ≡ with_row (row_of platform token issued_at user_id) s.db))
        (create_session platform token issued_at user_id s)
unfolding create_session insert_session
create_session-Ends platform token issued_at user_id s =
    elim (Bool-cases (exists (λ x. x.id == hash_token platform token) s.db.sessions)) [
      | inl taken ↦ rw taken tt
      | inr free ↦ elim (Bool-cases (exists (λ u. u.id == user_id) s.db.users)) [
        | inl known ↦ rw (free, known) (refl, refl, refl)
        | inr unknown ↦ rw (free, unknown) tt
      ]
    ]

ltb-leb : (m n : ℕ) → ltb m n ≡ not (leb n m)
ltb-leb m n = ground arith

pub stored_lem :
    (platform : AuthPlatform) (token : String) (issued_at now : ℕ) (owner : User) (db : Db)
    → find? (λ u. u.id == owner.id) db.users ≡ some owner
    → let row = row_of platform token issued_at owner.id in
      let after = with_row row db in
      transaction (resolve_session platform now token) after ≡ (
        if ltb now row.expires_at
        then (ok (some (session_user owner)), after)
        else (ok none, without (hash_token platform token) after))
unfolding resolve_session resolve_row resolve_found delete_sessions
stored_lem platform token issued_at now owner db known =
    elim (Bool-cases (leb (issued_at + session_ttl_ms) now)) [
      | inl late ↦
          rw
            (
              eq_refl (hash_token platform token),
              known,
              ltb-leb now (issued_at + session_ttl_ms),
              late,
            )
            (rw (eq_refl (hash_token platform token)) refl)
      | inr early ↦
          rw
            (
              eq_refl (hash_token platform token),
              known,
              ltb-leb now (issued_at + session_ttl_ms),
              early,
            )
            refl
    ]

-- A session that was issued for a user resolves to that user at every time before its expiry, and
-- changes nothing; from its expiry on it resolves to nobody, and its row is gone.
pub create_session_lifetime :
    (platform : AuthPlatform) (token : String) (issued_at now : ℕ) (owner : User) (db : Db)
    {issued : IssuedSession} {after : Db}
    → find? (λ u. u.id == owner.id) db.users ≡ some owner
    → transaction (create_session platform token issued_at owner.id) db ≡ (ok issued, after)
    → (issued.expires_at ≡ issued_at + session_ttl_ms)
      × (transaction (resolve_session platform now token) after ≡ (
          if ltb now issued.expires_at
          then (ok (some (session_user owner)), after)
          else (ok none, without (hash_token platform token) after)))
create_session_lifetime platform token issued_at now owner db {issued} {after} known h =
    let (named, expiry, placed) =
      transaction-ok
        (λ issued d.
          (issued.token ≡ token)
          × (issued.expires_at ≡ issued_at + session_ttl_ms)
          × (d ≡ with_row (row_of platform token issued_at owner.id) db))
        (create_session platform token issued_at owner.id) db
        (create_session-Ends platform token issued_at owner.id (record { db = db; locks = [] }))
        h in
    (expiry, rw (expiry, placed) (stored_lem platform token issued_at now owner db known))
