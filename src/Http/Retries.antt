-- ===== src/Http/Retries.antt =====
-- A redemption sent again (packages/api/src/modules/redemption/redemption.routes.ts).
use mini_rewards_integration.Prelude.{
  ℕ, String, true, ◌≡◌, ◌==◌, ◌∙◌, refl, sym, Option, none, some, Bool-cases, inl, inr,
}
use mini_rewards_integration.Database.Json.{Json}
use mini_rewards_integration.Database.Schema.{Db}
use mini_rewards_integration.Database.Exec.{
  insufficient_points, ledger_entry_not_found, reward_not_found, reward_unavailable, sku_taken,
  email_already_registered, unexpected, database, Result, ok, err,
}
use mini_rewards_integration.Ledger.{reversal_source}
use mini_rewards_integration.Ledger.Append.{holder}
use mini_rewards_integration.Redemption.Statements.{RedeemInput}
use mini_rewards_integration.Redemption.{Draws, RedemptionOutcome, current_balance, redeem}
use mini_rewards_integration.Redemption.Stock.{IsKeyed}
use mini_rewards_integration.Redemption.Once.{replay_of, redeem_once}
use mini_rewards_integration.Webhook.Route.{Header, read_header}
use mini_rewards_integration.Auth.{AuthPlatform, SessionUser}
use mini_rewards_integration.Http.{answer, Parsed, parsed, issues, Zod}
use mini_rewards_integration.Http.Guards.{resolve_user, require_user, acting_user, guarded}
use mini_rewards_integration.Http.Redemptions.{
  redeem_body_schema, idempotency_key, redeemed_or_refused, redeem_parsed, redeem_for, redeem_route,
}

module _ (platform : AuthPlatform) where
  routed_lem :
      (zod : Zod) (now : ℕ) (draws : Draws) (cookie : Option String) (header : Header) (body : Json)
      (db : Db) {u : SessionUser}
      → resolve_user platform now cookie db ≡ (ok (some u), db)
      → redeem_route platform zod now draws cookie header body db
        ≡ redeem_for zod draws header body u db
  unfolding redeem_route guarded require_user acting_user
  routed_lem zod now draws cookie header body db resolved = rw resolved refl

answered_lem :
    (r : Result RedemptionOutcome × Db) {code : ℕ} {outcome : RedemptionOutcome} {after : Db}
    → redeemed_or_refused r ≡ (ok (answer code outcome), after)
    → r ≡ (ok outcome, after)
unfolding redeemed_or_refused
answered_lem (ok a, db) h = cc
answered_lem (err (insufficient_points u b n), db) h = cc
answered_lem (err (ledger_entry_not_found i), db) h = cc
answered_lem (err (reward_not_found i), db) h = cc
answered_lem (err (reward_unavailable w m), db) h = cc
answered_lem (err (sku_taken s), db) h = cc
answered_lem (err email_already_registered, db) h = cc
answered_lem (err (unexpected m), db) h = cc
answered_lem (err (database v), db) h = cc

abbrev input_of : SessionUser → String → String → RedeemInput
input_of u key reward_id = record { user_id = u.id; reward_id = reward_id; idempotency_key = key }

-- What a request was, that `redeem` answered.
parsed_lem :
    (zod : Zod) (draws : Draws) (header : Header) (u : SessionUser) (key : String)
    (body : Parsed String) (db : Db) {code : ℕ} {outcome : RedemptionOutcome} {after : Db}
    → redeem_parsed draws u key body db ≡ (ok (answer code outcome), after)
    → (reward_id : String) × (body ≡ parsed reward_id)
      × (redeem draws (input_of u key reward_id) db ≡ (ok outcome, after))
unfolding redeem_parsed
parsed_lem zod draws header u key (issues messages) db h = cc
parsed_lem zod draws header u key (parsed reward_id) db h = (reward_id, refl, answered_lem _ h)

redeem_for_once :
    (zod : Zod) (draws draws' : Draws) (header : Header) (body : Json) (u : SessionUser) (db : Db)
    {code : ℕ} {outcome : RedemptionOutcome} {after : Db}
    → IsKeyed db.rewards
    → holder reversal_source (some draws.entry_id) db ≡ none
    → redeem_for zod draws header body u db ≡ (ok (answer code outcome), after)
    → (reward_id : String) × (redeem_for zod draws' header body u after ≡ (
      ok (
          answer 200 (
            replay_of
              (input_of u (idempotency_key zod (read_header header)) reward_id)
              outcome
              after)),
      after,
    ))
unfolding redeem_for redeem_parsed redeemed_or_refused
redeem_for_once zod draws draws' header body u db keyed unreversed h =
    let key = idempotency_key zod (read_header header) in
    elim (Bool-cases (key == "")) [
      | inl empty ↦ cc (rw empty at h)
      | inr filled ↦
          let (reward_id, valid, first) =
            parsed_lem zod draws header u key (redeem_body_schema zod body) db (rw filled at h) in
          (
            reward_id,
            rw (filled, valid)
                (rw (redeem_once draws draws' (input_of u key reward_id) db keyed unreversed first)
                  refl),
          )
    ]

-- A redemption that the route answered with its outcome, at whatever code, is answered with 200 and the
-- same outcome, but for the balance of now and the replay flag, when the same key and body come again
-- from the same user, and that changes nothing, whatever the second request draws. (Ids of rewards are
-- unique, and no entry yet reverses the debit's id.)
pub redeem_route_retry :
    (platform : AuthPlatform) (zod : Zod) (now later : ℕ) (draws draws' : Draws)
    (cookie cookie' : Option String) (header : Header) (body : Json) (u : SessionUser) (db : Db)
    {code : ℕ} {outcome : RedemptionOutcome} {after : Db}
    → IsKeyed db.rewards
    → holder reversal_source (some draws.entry_id) db ≡ none
    → resolve_user platform now cookie db ≡ (ok (some u), db)
    → redeem_route platform zod now draws cookie header body db ≡ (ok (answer code outcome), after)
    → resolve_user platform later cookie' after ≡ (ok (some u), after)
    → redeem_route platform zod later draws' cookie' header body after ≡ (
      ok (
          answer 200
            (record outcome { balance_after = current_balance u.id after; replay = true })),
      after,
    )
redeem_route_retry platform zod now later draws draws' cookie cookie' header body u db {after} keyed
      unreversed signed_in first still_in =
    routed_lem platform zod later draws' cookie' header body after still_in
    ∙ (redeem_for_once zod draws draws' header body u db keyed unreversed
        (sym (routed_lem platform zod now draws cookie header body db signed_in) ∙ first)).1
