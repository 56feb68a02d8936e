-- ===== src/Http/Sessions.antt =====
-- What the routes of packages/api/src/modules/auth/auth.routes.ts make of a session, one after another.
use mini_rewards_integration.Prelude.{
  ℕ, ◌+◌, ◌<◌, String, true, false, ◌≡◌, ◌==◌, ◌∙◌, refl, ap, sym, subst, arith, ltb, Option, none,
  some, [], find?, eq_refl, Bool-cases, inl, inr,
}
use mini_rewards_integration.Database.Json.{Json}
use mini_rewards_integration.Database.Schema.{UserRole, User, Db}
use mini_rewards_integration.Database.Exec.{
  insufficient_points, ledger_entry_not_found, reward_not_found, reward_unavailable, sku_taken,
  email_already_registered, unexpected, database, Result, ok, err, Client, Session, transaction,
}
use mini_rewards_integration.Database.Ends.{Ends, Ends-bind, transaction-ok}
use mini_rewards_integration.Auth.{
  delete_sessions, AuthPlatform, session_ttl_ms, SessionUser, session_user, RegisterInput,
  RegisterDraws, new_user, register, create_session, resolve_session, destroy_session,
}
use mini_rewards_integration.Auth.Sessions.{
  row_of, with_row, create_session-Ends, stored_lem, destroy_session_revokes,
}
use mini_rewards_integration.Auth.Accounts.{with_user, register-Ends}
use mini_rewards_integration.Http.{Reply, refusal, answer, Zod, Parsed, parsed, issues}
use mini_rewards_integration.Http.Guards.{
  resolve_user, require_user, require_admin, acting_user, guarded,
}
use mini_rewards_integration.Http.Accounts.{
  Answer, Cookie, session_cookie, SessionDraws, register_and_sign_in, registered_or_taken,
  register_parsed, register_schema, register_route, end_session, logout_route, me_route,
}
use mini_rewards_integration.Http.Admin.{admin_route}

module _ (platform : AuthPlatform) where
  -- What `me` answers, by what the session of the cookie resolves to.
  me_lem :
      (now : ℕ) (token : String) (db : Db) {found : Option SessionUser} {after : Db}
      → (token == "") ≡ false
      → transaction (resolve_session platform now token) db ≡ (ok found, after)
      → resolve_user platform now (some token) db ≡ (ok found, after)
  unfolding resolve_user
  me_lem now token db filled resolved = rw filled resolved

  signed_in_lem :
      (now : ℕ) (cookie : Option String) (db : Db) {u : SessionUser}
      → resolve_user platform now cookie db ≡ (ok (some u), db)
      → me_route platform now cookie db ≡ (ok (answer 200 u), db)
  unfolding me_route guarded require_user acting_user
  signed_in_lem now cookie db resolved = rw resolved refl

  signed_out_lem :
      (now : ℕ) (cookie : Option String) (db : Db)
      → resolve_user platform now cookie db ≡ (ok none, db)
      → me_route platform now cookie db
        ≡ (ok (refusal 401 "unauthenticated" "Sign in to continue."), db)
  unfolding me_route guarded require_user acting_user
  signed_out_lem now cookie db resolved = rw resolved refl

  forbidden_lem :
      {B : Type 0} (now : ℕ) (cookie : Option String) (handler : Client (Reply B)) (db : Db)
      {u : SessionUser}
      → resolve_user platform now cookie db ≡ (ok (some u), db)
      → u.role ≡ UserRole.user
      → admin_route platform now cookie handler db
        ≡ (ok (refusal 403 "forbidden" "This area is for administrator accounts."), db)
  unfolding admin_route guarded require_admin
  forbidden_lem now cookie handler db resolved plain = rw (resolved, plain) refl

  -- A registration with its session: the account, the cookie, and the two rows.
  record SignedIn (input : RegisterInput) (draws : RegisterDraws) (session : SessionDraws)
      (before : Db) (done : Answer) (tables : Db) : Type 0 where
    owner : User
    plain : owner.role ≡ UserRole.user
    account : done.user ≡ session_user owner
    cookie : done.cookie ≡ session_cookie platform session.token
    placed :
        tables
        ≡ with_row (row_of platform session.token session.now owner.id) (with_user owner before)

  register_and_sign_in-Ends :
      (draws : RegisterDraws) (session : SessionDraws) (input : RegisterInput) (s : Session)
      → Ends
          (λ done s'. SignedIn input draws session s.db done s'.db)
          (register_and_sign_in platform draws session input s)
  unfolding register_and_sign_in
  register_and_sign_in-Ends draws session input s =
      Ends-bind (λ done s'. SignedIn input draws session s.db done s'.db)
        (register platform draws input) _ s (register-Ends platform draws input s)
        λ created s' r.
          Ends-bind (λ done s''. SignedIn input draws session s.db done s''.db)
            (create_session platform session.token session.now created.id) _ s'
            (create_session-Ends platform session.token session.now created.id s')
            λ issued s'' i. record {
              owner = new_user platform draws input r.password_hash;
              plain = refl;
              account = r.created;
              cookie = ap (session_cookie platform) i.0;
              placed =
                  i.2
                  ∙ ap (λ d. with_row (row_of platform session.token session.now created.id) d)
                      r.after
                  ∙ ap
                      (λ id.
                        with_row (row_of platform session.token session.now id)
                          (with_user (new_user platform draws input r.password_hash) s.db))
                      (ap (λ u. u.id) r.created);
            }

  answered_lem :
      (r : Result Answer × Db) {done : Answer} {after : Db}
      → registered_or_taken r ≡ (ok (answer 201 done), after)
      → r ≡ (ok done, after)
  unfolding registered_or_taken
  answered_lem (ok a, db) h = cc
  answered_lem (err (insufficient_points u b n), db) h = cc
  answered_lem (err (ledger_entry_not_found i), db) h = cc
  answered_lem (err (reward_not_found i), db) h = cc
  answered_lem (err (reward_unavailable w m), db) h = cc
  answered_lem (err (sku_taken s), db) h = cc
  answered_lem (err email_already_registered, db) h = cc
  answered_lem (err (unexpected m), db) h = cc
  answered_lem (err (database v), db) h = cc

  registered_lem :
      (draws : RegisterDraws) (session : SessionDraws) (body : Parsed RegisterInput) (db : Db)
      {done : Answer} {after : Db}
      → register_parsed platform draws session body db ≡ (ok (answer 201 done), after)
      → (input : RegisterInput) × SignedIn input draws session db done after
  unfolding register_parsed
  registered_lem draws session (issues messages) db h = cc
  registered_lem draws session (parsed input) db h = (
    input,
    transaction-ok (λ done d. SignedIn input draws session db done d)
        (register_and_sign_in platform draws session input) db
        (register_and_sign_in-Ends draws session input (record { db = db; locks = [] }))
        (answered_lem _ h),
  )

  registered_caller :
      (zod : Zod) (draws : RegisterDraws) (session : SessionDraws) (body : Json) (now : ℕ) (db : Db)
      {done : Answer} {after : Db}
      → (session.token == "") ≡ false
      → now < session.now + session_ttl_ms
      → register_route platform zod draws session body db ≡ (ok (answer 201 done), after)
      → (resolve_user platform now (some session.token) after ≡ (ok (some done.user), after))
        × (done.user.role ≡ UserRole.user)
        × (done.cookie ≡ session_cookie platform session.token)
  unfolding register_route
  registered_caller zod draws session body now db {done} {after} filled early h =
      let (input, r) = registered_lem draws session (register_schema zod body) db h in
      let live : ltb now (session.now + session_ttl_ms) ≡ true = ground (arith, early) in
      let known : find? (λ u. u.id == r.owner.id) (with_user r.owner db).users ≡ some r.owner =
        rw (eq_refl r.owner.id) refl in
      let resolved =
        stored_lem platform session.token session.now now r.owner (with_user r.owner db) known in
      let tables =
        with_row (row_of platform session.token session.now r.owner.id) (with_user r.owner db) in
      let owned : transaction (resolve_session platform now session.token) tables
          ≡ (ok (some (session_user r.owner)), tables) =
        rw live at resolved in
      (
        me_lem now session.token after filled (
            subst
              (λ d.
                transaction (resolve_session platform now session.token) d
                ≡ (ok (some done.user), d))
              (sym r.placed) (owned ∙ ap (λ u. (ok (some u), tables)) (sym r.account))),
        ap (λ u. u.role) r.account ∙ r.plain,
        r.cookie,
      )

-- The cookie that a registration sets is a session of the account that it answered: until seven days
-- are over, `me` answers that account, every administrator's route is forbidden, whatever it would do,
-- and neither changes anything. (The token drawn is not empty.)
pub register_route_session :
    {B : Type 0} (platform : AuthPlatform) (zod : Zod) (draws : RegisterDraws)
    (session : SessionDraws) (body : Json) (now : ℕ) (handler : Client (Reply B)) (db : Db)
    {done : Answer} {after : Db}
    → (session.token == "") ≡ false
    → now < session.now + session_ttl_ms
    → register_route platform zod draws session body db ≡ (ok (answer 201 done), after)
    → (done.cookie ≡ session_cookie platform session.token)
      × (me_route platform now (some session.token) after ≡ (ok (answer 200 done.user), after))
      × (admin_route platform now (some session.token) handler after
          ≡ (ok (refusal 403 "forbidden" "This area is for administrator accounts."), after))
register_route_session platform zod draws session body now handler db {after} filled early h =
    let (resolved, plain, cookie) =
      registered_caller platform zod draws session body now db filled early h in
    (
      cookie,
      signed_in_lem platform now (some session.token) after resolved,
      forbidden_lem platform now (some session.token) handler after resolved plain,
    )

empty_lem :
    (platform : AuthPlatform) (now : ℕ) (token : String) (db : Db)
    → (token == "") ≡ true
    → resolve_user platform now (some token) db ≡ (ok none, db)
unfolding resolve_user
empty_lem platform now token db empty = rw empty refl

-- After a logout the cookie's token is nobody's: at any time later, `me` answers 401, and changes nothing.
pub logout_route_ends :
    (platform : AuthPlatform) (token : String) (now : ℕ) (db : Db) {reply : Reply Cookie}
    {after : Db}
    → logout_route platform (some token) db ≡ (ok reply, after)
    → me_route platform now (some token) after
      ≡ (ok (refusal 401 "unauthenticated" "Sign in to continue."), after)
unfolding logout_route end_session destroy_session delete_sessions
logout_route_ends platform token now db {after} h =
    signed_out_lem platform now (some token) after (elim (Bool-cases (token == "")) [
      | inl empty ↦ empty_lem platform now token after empty
      | inr filled ↦
          let gone : transaction (destroy_session platform token) db ≡ (ok tt, after) =
            ap (λ r. (ok tt, r.1)) (rw filled at h) in
          me_lem platform now token after filled
            (destroy_session_revokes platform token now db gone)
    ])
