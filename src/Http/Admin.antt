-- ===== src/Http/Admin.antt =====
-- packages/api/src/modules/dev/dev.routes.ts: the routes of an administrator. `JSON.stringify` and the decimal
-- text of a number are arguments.
use Prim.Native.Char.{code}
use Prim.Native.String.{◌++◌}
use mini_rewards_integration.Prelude.{
  ◌/◌, ℕ, String, Bool, true, false, Option, none, some, List, ltb, eqb, length, select, map,
  or_default,
}
use mini_rewards_integration.Prelude.Sort.{take, sort}
use mini_rewards_integration.Database.Json.{Json, text, object, end, field}
use mini_rewards_integration.Database.Schema.{
  DeliveryStatus, unmatched, UnmatchedReason, no_rule, unknown_user, WebhookDelivery, Db,
}
use mini_rewards_integration.Database.Exec.{
  sku_taken, reward_not_found, Result, ok, err, Client, pure, gets, ◌>>=◌, transaction,
}
use mini_rewards_integration.Ledger.Reconcile.{BalanceDiscrepancy, reconcile}
use mini_rewards_integration.Catalogue.{RewardSummary, CreateRewardInput, create_reward}
use mini_rewards_integration.Allocation.{
  Texts, AllocationDraws, AllocationStatus, allocated, failed, AllocationOutcome,
  AllocateRewardInput, allocate_reward,
}
use mini_rewards_integration.Webhook.Signature.{sign}
use mini_rewards_integration.Webhook.Route.{
  once, Reply as WebhookReply, unauthenticated, nul_in_body, answered, Request, Context,
  handle_delivery,
}
use mini_rewards_integration.Auth.{AuthPlatform}
use mini_rewards_integration.Http.{
  Reply, refusal, answer, Parsed, parsed, issues, Zod, invalid_request,
}
use mini_rewards_integration.Http.Guards.{require_admin, guarded}
use mini_rewards_integration.Http.Forms.{
  SimulateInput, simulate_schema, create_reward_schema, allocate_schema,
}

pub record Simulated : Type 0 where
  pub sent_event_id : String
  -- none where the webhook's own handler threw
  pub webhook : Option WebhookReply

abbrev pub webhook_status : Option WebhookReply → ℕ
webhook_status none = 500
webhook_status (some (unauthenticated reason)) = 401
webhook_status (some nul_in_body) = 400
webhook_status (some (answered code body)) = code

-- What a simulation draws, and the runtime's texts.
pub record Simulation : Type 0 where
  pub uuid : String
  pub context : Context
  pub stringify : Json → String
  -- `String(number)` of a whole number
  pub show_number : ℕ → String

abbrev pub simulated_id : Simulation → SimulateInput → String
simulated_id simulation input = or_default input.event_id ("sim_" ++ simulation.uuid)

unfoldable pub simulated_body : Simulation → SimulateInput → String
simulated_body simulation input = simulation.stringify (
    object (
      field "event_id" (text (simulated_id simulation input)) (
        field "user_ref" (text input.user_ref) (
          field "activity_type" (text input.activity_type) (
            field "occurred_at"
              (text (
                or_default input.occurred_at
                  (simulation.context.platform.to_iso simulation.context.run.now)))
              end)))))

-- The request to the webhook's own route, signed as the partner would sign it: the timestamp is
-- `String(Math.floor(Date.now() / 1000))`.
unfoldable pub simulated_request : Simulation → SimulateInput → Request
simulated_request simulation input =
    let context = simulation.context in
    let timestamp = simulation.show_number (context.run.now / 1000) in
    let raw_body = simulated_body simulation input in
    record {
      partner = context.webhook_partner;
      raw_body = raw_body;
      signature = once (sign context.crypto context.webhook_secret timestamp raw_body);
      timestamp = once timestamp;
    }

abbrev pub injected : Result WebhookReply × Db → Option WebhookReply × Db
injected (ok reply, db) = (some reply, db)
injected (err e, db) = (none, db)

unfoldable pub passed_through : String → Option WebhookReply × Db → Result (Reply Simulated) × Db
passed_through event_id (webhook, db) = (
  ok (answer (webhook_status webhook) (record { sent_event_id = event_id; webhook = webhook })),
  db,
)

unfoldable pub simulate_parsed : Simulation → Parsed SimulateInput → Client (Reply Simulated)
simulate_parsed simulation (issues messages) = pure (invalid_request messages)
simulate_parsed simulation (parsed input) = λ db.
    passed_through (simulated_id simulation input)
      (injected (handle_delivery simulation.context (simulated_request simulation input) db))

unfoldable pub created_or_taken : Result RewardSummary × Db → Result (Reply RewardSummary) × Db
created_or_taken (ok reward, db) = (ok (answer 201 reward), db)
created_or_taken (err (sku_taken sku), db) =
    (ok (refusal 409 "sku_taken" ("A reward with SKU " ++ (sku ++ " already exists."))), db)
created_or_taken (err e, db) = (err e, db)

unfoldable pub create_reward_parsed :
    (trim to_upper_case : String → String)
    → String
    → ℕ
    → Parsed CreateRewardInput
    → Client (Reply RewardSummary)
create_reward_parsed trim to_upper_case id now (issues messages) = pure (invalid_request messages)
create_reward_parsed trim to_upper_case id now (parsed input) =
    λ db. created_or_taken (transaction (create_reward trim to_upper_case id now input) db)

pub record Allocations : Type 0 where
  pub allocated : ℕ
  pub failed : ℕ
  pub outcomes : List AllocationOutcome

abbrev pub is_allocated : AllocationStatus → Bool
is_allocated allocated = true
is_allocated failed = false

abbrev pub is_failed : AllocationStatus → Bool
is_failed allocated = false
is_failed failed = true

abbrev pub allocations : List AllocationOutcome → Allocations
allocations outcomes = record {
  allocated = length (select (λ o. is_allocated o.status) outcomes);
  failed = length (select (λ o. is_failed o.status) outcomes);
  outcomes = outcomes;
}

unfoldable pub allocated_or_missing :
    Result (List AllocationOutcome) × Db → Result (Reply Allocations) × Db
allocated_or_missing (ok outcomes, db) = (ok (answer 200 (allocations outcomes)), db)
allocated_or_missing (err (reward_not_found reward_id), db) =
    (ok (refusal 404 "reward_not_found" "No such reward."), db)
allocated_or_missing (err e, db) = (err e, db)

unfoldable pub allocate_parsed :
    Texts → (ℕ → AllocationDraws) → Parsed AllocateRewardInput → Client (Reply Allocations)
allocate_parsed texts draws (issues messages) = pure (invalid_request messages)
allocate_parsed texts draws (parsed input) =
    λ db. allocated_or_missing (allocate_reward texts draws input db)

pub record Health : Type 0 where
  pub healthy : Bool
  pub discrepancies : List BalanceDiscrepancy

unfoldable pub reconcile_answer : (String → String → Bool) → Client (Reply Health)
reconcile_answer name_le = do
  discrepancies ← reconcile name_le
  pure (
      answer 200 (record { healthy = eqb (length discrepancies) 0; discrepancies = discrepancies }))

abbrev pub is_parked : DeliveryStatus → Bool
is_parked unmatched = true
is_parked _ = false

abbrev pub for_no_rule : Option UnmatchedReason → Bool
for_no_rule (some no_rule) = true
for_no_rule _ = false

abbrev pub for_unknown_user : Option UnmatchedReason → Bool
for_unknown_user (some unknown_user) = true
for_unknown_user _ = false

-- The columns selected: all but the body.
pub record DeliverySummary : Type 0 where
  pub id : String
  pub partner : String
  pub external_event_id : String
  pub status : DeliveryStatus
  pub unmatched_reason : Option UnmatchedReason
  pub user_ref : Option String
  pub activity_type : Option String
  pub error : Option String
  pub attempts : ℕ
  pub received_at : ℕ
  pub processed_at : Option ℕ

abbrev pub delivery_summary : WebhookDelivery → DeliverySummary
delivery_summary d = record {
  id = d.id;
  partner = d.partner;
  external_event_id = d.external_event_id;
  status = d.status;
  unmatched_reason = d.unmatched_reason;
  user_ref = d.user_ref;
  activity_type = d.activity_type;
  error = d.error;
  attempts = d.attempts;
  received_at = d.received_at;
  processed_at = d.processed_at;
}

pub record Deliveries : Type 0 where
  pub deliveries : List DeliverySummary
  pub total : ℕ
  pub unmatched : ℕ
  pub no_rule : ℕ
  pub unknown_user : ℕ

abbrev pub deliveries_of : List WebhookDelivery → Deliveries
deliveries_of rows =
    let parked = select (λ d. is_parked d.status) rows in
    record {
      deliveries = map delivery_summary rows;
      total = length rows;
      unmatched = length parked;
      no_rule = length (select (λ d. for_no_rule d.unmatched_reason) parked);
      unknown_user = length (select (λ d. for_unknown_user d.unmatched_reason) parked);
    }

-- The fifty deliveries received last.
unfoldable pub deliveries_answer : Client (Reply Deliveries)
deliveries_answer = do
  rows ← gets (λ db. take 50 (sort (λ d e. ltb e.received_at d.received_at) db.webhook_deliveries))
  pure (answer 200 (deliveries_of rows))

-- The guard stands before every one of these routes.
module _ (platform : AuthPlatform) (now : ℕ) (cookie : Option String) where
  unfoldable pub admin_route : {B : Type 0} → Client (Reply B) → Client (Reply B)
  admin_route handler = guarded platform now cookie require_admin (λ caller. handler)

  unfoldable pub simulate_route : Zod → Simulation → Json → Client (Reply Simulated)
  simulate_route zod simulation body =
      admin_route (simulate_parsed simulation (simulate_schema zod body))

  unfoldable pub create_reward_route :
      (String → String) → Zod → String → ℕ → Json → Client (Reply RewardSummary)
  create_reward_route to_upper_case zod id created_at body =
      admin_route
        (create_reward_parsed zod.trim to_upper_case id created_at (create_reward_schema zod body))

  unfoldable pub allocate_route :
      Zod → Texts → (ℕ → AllocationDraws) → Json → Client (Reply Allocations)
  allocate_route zod texts draws body =
      admin_route (allocate_parsed texts draws (allocate_schema zod body))

  unfoldable pub reconcile_route : (String → String → Bool) → Client (Reply Health)
  reconcile_route name_le = admin_route (reconcile_answer name_le)

  unfoldable pub deliveries_route : Client (Reply Deliveries)
  deliveries_route = admin_route deliveries_answer
