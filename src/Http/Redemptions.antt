-- ===== src/Http/Redemptions.antt =====
-- packages/api/src/modules/redemption/redemption.routes.ts: a request to redeem a reward.
use mini_rewards_integration.Prelude.{ℕ, String, Option, none, some, ◌==◌, if◌then◌else◌}
use mini_rewards_integration.Database.Json.{Json}
use mini_rewards_integration.Database.Schema.{Db}
use mini_rewards_integration.Database.Exec.{
  Unavailable, out_of_stock, reward_inactive, insufficient_points, reward_unavailable,
  reward_not_found, Result, ok, err, Client, pure, ◌>>=◌,
}
use mini_rewards_integration.Redemption.{Draws, RedemptionOutcome, redeem}
use mini_rewards_integration.Webhook.Route.{Header, read_header}
use mini_rewards_integration.Auth.{AuthPlatform, SessionUser}
use mini_rewards_integration.Http.{
  Reply, refusal, short_of_points, answer, Parsed, parsed, issues, Zod, checked, with_fields,
  text_field, invalid_request,
}
use mini_rewards_integration.Http.Guards.{require_user, acting_user, guarded}

unfoldable pub redeem_body_schema : Zod → Json → Parsed String
redeem_body_schema zod =
    with_fields zod
      (text_field zod "rewardId" (λ s. checked (zod.is_uuid s) "rewardId must be a reward id" s))

-- `typeof header === 'string' ? header.trim() : ''`
abbrev pub idempotency_key : Zod → Option String → String
idempotency_key zod none = ""
idempotency_key zod (some header) = zod.trim header

abbrev pub unavailable_code : Unavailable → String
unavailable_code out_of_stock = "out_of_stock"
unavailable_code reward_inactive = "reward_inactive"

-- The answer to what `redeem` gave or threw; any other error goes on to the error handler.
unfoldable pub redeemed_or_refused :
    Result RedemptionOutcome × Db → Result (Reply RedemptionOutcome) × Db
redeemed_or_refused (ok outcome, db) =
    (ok (answer (if outcome.replay then 200 else 201) outcome), db)
redeemed_or_refused (err (insufficient_points user_id balance requested), db) = (
  ok (
      short_of_points 409 "insufficient_points" "Not enough points for this reward." balance
        requested),
  db,
)
redeemed_or_refused (err (reward_unavailable why message), db) =
    (ok (refusal 409 (unavailable_code why) message), db)
redeemed_or_refused (err (reward_not_found reward_id), db) =
    (ok (refusal 404 "reward_not_found" "No such reward."), db)
redeemed_or_refused (err e, db) = (err e, db)

unfoldable pub redeem_parsed :
    Draws → SessionUser → String → Parsed String → Client (Reply RedemptionOutcome)
redeem_parsed draws user key (issues messages) = pure (invalid_request messages)
redeem_parsed draws user key (parsed reward_id) = λ db.
    redeemed_or_refused
      (redeem draws (record { user_id = user.id; reward_id = reward_id; idempotency_key = key }) db)

unfoldable pub redeem_for :
    Zod → Draws → Header → Json → SessionUser → Client (Reply RedemptionOutcome)
redeem_for zod draws header body user =
    let key = idempotency_key zod (read_header header) in
    if key == ""
    then pure (
        refusal 400 "idempotency_key_required"
          "Send an Idempotency-Key header. It makes a retried redemption safe.")
    else redeem_parsed draws user key (redeem_body_schema zod body)

unfoldable pub redeem_route :
    AuthPlatform
    → Zod
    → ℕ
    → Draws
    → Option String
    → Header
    → Json
    → Client (Reply RedemptionOutcome)
redeem_route platform zod now draws cookie header body =
    guarded platform now cookie require_user
      (λ caller. do user ← acting_user caller; redeem_for zod draws header body user)
