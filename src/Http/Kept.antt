-- ===== src/Http/Kept.antt =====
-- The routes of packages/api/src, and the properties that the ledger keeps.
use mini_rewards_integration.Prelude.{
  ℕ, String, ◌≡◌, subst, sym, ◌==◌, inl, inr, refl, Option, none, some, List, Bool-cases,
}
use mini_rewards_integration.Database.Json.{Json}
use mini_rewards_integration.Database.Schema.{Db}
use mini_rewards_integration.Database.Exec.{
  insufficient_points, ledger_entry_not_found, reward_not_found, reward_unavailable, sku_taken,
  email_already_registered, unexpected, database, Result, ok, err, Client,
}
use mini_rewards_integration.Database.Keeps.{
  Keeps, keeps_rules, Preserves, preserves_rules, Preserves-transaction,
}
use mini_rewards_integration.Ledger.Invariant.{IsLedgerInvariant}
use mini_rewards_integration.Redemption.{Draws, RedemptionOutcome, redeem}
use mini_rewards_integration.Redemption.Statements.{RedeemInput}
use mini_rewards_integration.Redemption.Reconciled.{redeem-Preserves}
use mini_rewards_integration.Webhook.Route.{Header}
use mini_rewards_integration.Auth.{
  AuthPlatform, SessionUser, RegisterInput, RegisterDraws, register, create_session, authenticate,
  resolve_session, destroy_session,
}
use mini_rewards_integration.Auth.Kept.{
  create_session-Keeps, resolve_session-Keeps, destroy_session-Keeps, register-Keeps,
  authenticate-Keeps,
}
use mini_rewards_integration.Http.{Reply, Parsed, parsed, issues, Zod}
use mini_rewards_integration.Http.Guards.{resolve_user, acting_user, unless_sent, guarded}
use mini_rewards_integration.Http.Accounts.{
  Answer, Credentials, SessionDraws, register_and_sign_in, registered_or_taken, register_parsed,
  register_route, sign_in, authenticate_and_sign_in, login_parsed, login_route, end_session,
  logout_route, me_route,
}
use mini_rewards_integration.Http.Redemptions.{
  redeemed_or_refused, redeem_parsed, redeem_for, redeem_route,
}

registered_lem : (r : Result Answer × Db) → (registered_or_taken r).1 ≡ r.1
unfolding registered_or_taken
registered_lem (ok a, db) = refl
registered_lem (err (insufficient_points u b n), db) = refl
registered_lem (err (ledger_entry_not_found i), db) = refl
registered_lem (err (reward_not_found i), db) = refl
registered_lem (err (reward_unavailable w m), db) = refl
registered_lem (err (sku_taken s), db) = refl
registered_lem (err email_already_registered, db) = refl
registered_lem (err (unexpected m), db) = refl
registered_lem (err (database v), db) = refl

redeemed_lem : (r : Result RedemptionOutcome × Db) → (redeemed_or_refused r).1 ≡ r.1
unfolding redeemed_or_refused
redeemed_lem (ok a, db) = refl
redeemed_lem (err (insufficient_points u b n), db) = refl
redeemed_lem (err (ledger_entry_not_found i), db) = refl
redeemed_lem (err (reward_not_found i), db) = refl
redeemed_lem (err (reward_unavailable w m), db) = refl
redeemed_lem (err (sku_taken s), db) = refl
redeemed_lem (err email_already_registered, db) = refl
redeemed_lem (err (unexpected m), db) = refl
redeemed_lem (err (database v), db) = refl

module _ (P : Db → Type 0) (laws : IsLedgerInvariant P) where
  -- What becomes of an outcome and its tables, where the tables stay.
  pub told :
      {A B : Type 0} (f : Result A × Db → Result B × Db) (m : Client A)
      → ((r : Result A × Db) → (f r).1 ≡ r.1)
      → Preserves P m
      → Preserves P (λ db. f (m db))
  told f m same km = record { at = λ db h. subst P (sym (same (m db))) (km.at db h) }

  module _ (platform : AuthPlatform) where
    resolve_law : (now : ℕ) (token : String) → Keeps P (resolve_session platform now token)
    resolve_law = resolve_session-Keeps P laws platform

    destroy_law : (token : String) → Keeps P (destroy_session platform token)
    destroy_law = destroy_session-Keeps P laws platform

    create_law :
        (token : String) (now : ℕ) (user_id : String)
        → Keeps P (create_session platform token now user_id)
    create_law = create_session-Keeps P laws platform

    register_law :
        (draws : RegisterDraws) (input : RegisterInput) → Keeps P (register platform draws input)
    register_law = register-Keeps P laws platform

    authenticate_law :
        (salt : List ℕ) (email password : String)
        → Keeps P (authenticate platform salt email password)
    authenticate_law = authenticate-Keeps P laws platform

    ruleset route_rules = (
      preserves_rules, keeps_rules, resolve_law, destroy_law, create_law, register_law,
      authenticate_law,
    )

    resolve_user-Preserves :
        (now : ℕ) (cookie : Option String) → Preserves P (resolve_user platform now cookie)
    unfolding resolve_user
    resolve_user-Preserves now none = search route_rules
    resolve_user-Preserves now (some token) = elim (Bool-cases (token == "")) [
      | inl empty ↦ rw empty (search route_rules)
      | inr filled ↦ rw filled (search route_rules)
    ]

    pub acting_user-Preserves : (caller : Option SessionUser) → Preserves P (acting_user caller)
    unfolding acting_user
    acting_user-Preserves none = search route_rules
    acting_user-Preserves (some u) = search route_rules

    unless_sent-Preserves :
        {B : Type 0} (sent : Option (Reply B)) (handler : Client (Reply B))
        → Preserves P handler
        → Preserves P (unless_sent sent handler)
    unless_sent-Preserves none handler kept = kept
    unless_sent-Preserves (some reply) handler kept = search route_rules

    pub guarded-Preserves :
        {B : Type 0} (now : ℕ) (cookie : Option String)
        (guard : Option SessionUser → Option (Reply B))
        (handler : Option SessionUser → Client (Reply B))
        → ((caller : Option SessionUser) → Preserves P (handler caller))
        → Preserves P (guarded platform now cookie guard handler)
    unfolding guarded
    guarded-Preserves now cookie guard handler kept =
        search (route_rules, resolve_user-Preserves, unless_sent-Preserves, kept)

    register_and_sign_in-Keeps :
        (draws : RegisterDraws) (session : SessionDraws) (input : RegisterInput)
        → Keeps P (register_and_sign_in platform draws session input)
    unfolding register_and_sign_in
    register_and_sign_in-Keeps draws session input = search route_rules

    register_parsed-Preserves :
        (draws : RegisterDraws) (session : SessionDraws) (input : Parsed RegisterInput)
        → Preserves P (register_parsed platform draws session input)
    unfolding register_parsed
    register_parsed-Preserves draws session (issues messages) = search route_rules
    register_parsed-Preserves draws session (parsed input) =
        told registered_or_taken _ registered_lem
          (Preserves-transaction _ (register_and_sign_in-Keeps draws session input))

    pub register_route-Preserves :
        (zod : Zod) (draws : RegisterDraws) (session : SessionDraws) (body : Json)
        → Preserves P (register_route platform zod draws session body)
    unfolding register_route
    register_route-Preserves zod draws session body = register_parsed-Preserves draws session _

    sign_in-Keeps :
        (session : SessionDraws) (found : Option SessionUser)
        → Keeps P (sign_in platform session found)
    unfolding sign_in
    sign_in-Keeps session none = search route_rules
    sign_in-Keeps session (some u) = search route_rules

    authenticate_and_sign_in-Keeps :
        (salt : List ℕ) (session : SessionDraws) (body : Credentials)
        → Keeps P (authenticate_and_sign_in platform salt session body)
    unfolding authenticate_and_sign_in
    authenticate_and_sign_in-Keeps salt session body = search (route_rules, sign_in-Keeps)

    login_parsed-Preserves :
        (salt : List ℕ) (session : SessionDraws) (body : Parsed Credentials)
        → Preserves P (login_parsed platform salt session body)
    unfolding login_parsed
    login_parsed-Preserves salt session (issues messages) = search route_rules
    login_parsed-Preserves salt session (parsed body) =
        search (route_rules, authenticate_and_sign_in-Keeps)

    pub login_route-Preserves :
        (zod : Zod) (salt : List ℕ) (session : SessionDraws) (body : Json)
        → Preserves P (login_route platform zod salt session body)
    unfolding login_route
    login_route-Preserves zod salt session body = login_parsed-Preserves salt session _

    end_session-Preserves : (cookie : Option String) → Preserves P (end_session platform cookie)
    unfolding end_session
    end_session-Preserves none = search route_rules
    end_session-Preserves (some token) = elim (Bool-cases (token == "")) [
      | inl empty ↦ rw empty (search route_rules)
      | inr filled ↦ rw filled (search route_rules)
    ]

    pub logout_route-Preserves :
        (cookie : Option String) → Preserves P (logout_route platform cookie)
    unfolding logout_route
    logout_route-Preserves cookie = search (route_rules, end_session-Preserves)

    pub me_route-Preserves :
        (now : ℕ) (cookie : Option String) → Preserves P (me_route platform now cookie)
    unfolding me_route
    me_route-Preserves now cookie =
        guarded-Preserves now cookie _ _ (λ caller. search (route_rules, acting_user-Preserves))

    redeem_law : (draws : Draws) (input : RedeemInput) → Preserves P (redeem draws input)
    redeem_law = redeem-Preserves P laws

    redeem_parsed-Preserves :
        (draws : Draws) (user : SessionUser) (key : String) (reward_id : Parsed String)
        → Preserves P (redeem_parsed draws user key reward_id)
    unfolding redeem_parsed
    redeem_parsed-Preserves draws user key (issues messages) = search route_rules
    redeem_parsed-Preserves draws user key (parsed reward_id) =
        told redeemed_or_refused _ redeemed_lem (redeem_law draws _)

    redeem_for-Preserves :
        (zod : Zod) (draws : Draws) (header : Header) (body : Json) (user : SessionUser)
        → Preserves P (redeem_for zod draws header body user)
    unfolding redeem_for
    redeem_for-Preserves zod draws header body user = search (route_rules, redeem_parsed-Preserves)

    pub redeem_route-Preserves :
        (zod : Zod) (now : ℕ) (draws : Draws) (cookie : Option String) (header : Header)
        (body : Json)
        → Preserves P (redeem_route platform zod now draws cookie header body)
    unfolding redeem_route
    redeem_route-Preserves zod now draws cookie header body =
        guarded-Preserves now cookie _ _
          (λ caller. search (route_rules, acting_user-Preserves, redeem_for-Preserves))
