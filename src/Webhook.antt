-- ===== src/Webhook.antt =====
-- packages/api/src/modules/webhook/webhook.service.ts: a delivery is captured, then processed. Ids
-- and the clock are arguments.
pub mod Event
pub mod Statements
pub mod Backfill
pub mod Books
pub mod Settled
pub mod Signature
pub mod Route
use Prim.Native.String.{◌++◌}
use Event.{
  Platform, lookup, ActivityEvent, parse_event, optional_field, event_json, contains_nul,
  max_event_age_ms, max_event_future_ms,
}
use Statements.{is_delivery, insert_delivery, update_delivery}
use mini_rewards_integration.Prelude.{
  ℕ, ◌+◌, String, Bool, true, false, Option, none, some, ◌==◌, ltb, find?, if◌then◌else◌,
}
use mini_rewards_integration.Prelude.Int.{ℤ}
use mini_rewards_integration.Database.Json.{Json, text, object, Fields, end, field}
use mini_rewards_integration.Database.Schema.{
  TransactionType, earn, DeliveryStatus, received, processed, unmatched, rejected, UnmatchedReason,
  unknown_user, no_rule, User, WebhookDelivery,
}
use mini_rewards_integration.Database.Exec.{unexpected, Action, pure, raise, ◌>>=◌, ◌>>◌, query}
use mini_rewards_integration.Ledger.{AppendEntryInput, append_entry}
use mini_rewards_integration.Earning.{ResolvedRule, resolve_rule}

pub record CaptureResult : Type 0 where
  pub delivery_id : String
  pub external_event_id : String
  pub duplicate : Bool
  pub status : DeliveryStatus

pub data ProcessOutcome : Type 0 where
  credited :
      (transaction_id : String) (points balance_after : ℤ) (already_credited : Bool)
      → ProcessOutcome
  parked : UnmatchedReason → String → ProcessOutcome
  refused : String → ProcessOutcome

-- `parsed.event_id`, when it is a text that is not empty
abbrev pub usable_id : Option Json → Option String
usable_id (some (text s)) = if s == "" then none else some s
usable_id _ = none

abbrev pub parsed_id : Option Json → Option String
parsed_id (some (object fields)) = usable_id (lookup "event_id" fields)
parsed_id _ = none

abbrev pub id_or_hash : Platform → String → Option String → String
id_or_hash platform raw_payload (some event_id) = event_id
id_or_hash platform raw_payload none = "unparsed:" ++ platform.sha256_hex raw_payload

unfoldable pub resolve_delivery_key : Platform → String → String
resolve_delivery_key platform raw_payload =
    id_or_hash platform raw_payload (parsed_id (platform.parse_json raw_payload))

-- After the insert: a row already there counts one more attempt.
unfoldable pub captured : String → String → Option WebhookDelivery → Action CaptureResult
captured partner external_event_id (some inserted) = pure (record {
  delivery_id = inserted.id;
  external_event_id = external_event_id;
  duplicate = false;
  status = inserted.status;
})
captured partner external_event_id none = do
  existing ←
      update_delivery (is_delivery partner external_event_id)
        (λ d. record d { attempts = d.attempts + 1 })
  pure (record {
    delivery_id = existing.id;
    external_event_id = external_event_id;
    duplicate = true;
    status = existing.status;
  })

unfoldable pub capture_delivery : Platform → String → ℕ → String → String → Action CaptureResult
capture_delivery platform id now partner raw_payload = do
  let external_event_id = resolve_delivery_key platform raw_payload
  inserted ← insert_delivery platform.includes_nul (record {
    id = id;
    partner = partner;
    external_event_id = external_event_id;
    status = received;
    unmatched_reason = none;
    raw_payload = raw_payload;
    user_ref = none;
    activity_type = none;
    error = none;
    attempts = 1;
    received_at = now;
    processed_at = none;
  })
  captured partner external_event_id inserted

abbrev pub has_id : String → WebhookDelivery → Bool
has_id id d = d.id == id

unfoldable pub reject : ℕ → String → String → Action ProcessOutcome
reject now delivery_id error = do
  update_delivery (has_id delivery_id)
      (λ d. record d { status = rejected; error = some error; processed_at = some now })
  pure (refused error)

unfoldable pub park : String → UnmatchedReason → String → Action ProcessOutcome
park delivery_id reason detail = do
  update_delivery (has_id delivery_id)
      (λ d. record d { status = unmatched; unmatched_reason = some reason; error = some detail })
  pure (parked reason detail)

abbrev pub describe_activity : String → String
describe_activity activity_type =
    if activity_type == "PURCHASE"
    then "Purchase"
    else if activity_type == "REFERRAL"
    then "Referred a friend"
    else if activity_type == "APP_REVIEW"
    then "Left an app store review"
    else "Activity: " ++ activity_type

-- One run of `processDelivery`: the id that `randomUUID` gives its ledger entry, and the clock.
pub record Run : Type 0 where
  pub entry_id : String
  pub now : ℕ

-- The entry that an event earns.
abbrev pub earning :
    Platform → WebhookDelivery → ActivityEvent → String → ResolvedRule → AppendEntryInput
earning platform delivery event user_id rule = record {
  user_id = user_id;
  delta = rule.points;
  type = TransactionType.earn;
  source = "partner:" ++ delivery.partner;
  external_event_id = some event.event_id;
  redemption_id = none;
  rule_id = some rule.rule_id;
  reverses_id = none;
  description = describe_activity event.activity_type;
  metadata = some (
      object (
        field "occurredAt" (text (platform.to_iso (platform.instant event.occurred_at))) (
          field "partner" (text delivery.partner)
            (optional_field "partnerMetadata" event.metadata end))));
  enforce_non_negative = none;
  created_at = none;
}

module _ (platform : Platform) (run : Run) where
  unfoldable pub credit :
      WebhookDelivery → ActivityEvent → String → ResolvedRule → Action ProcessOutcome
  credit delivery event user_id rule = do
    entry ← append_entry run.entry_id run.now (earning platform delivery event user_id rule)
    update_delivery (has_id delivery.id) (λ d. record d {
      status = processed;
      unmatched_reason = none;
      error = none;
      processed_at = some run.now;
    })
    pure (credited entry.transaction_id rule.points entry.balance_after entry.duplicate)

  unfoldable pub credit_or_park :
      WebhookDelivery → ActivityEvent → String → Option ResolvedRule → Action ProcessOutcome
  credit_or_park delivery event user_id none = park delivery.id no_rule (
      "No active earning rule for "
      ++ event.activity_type
      ++ " at "
      ++ platform.to_iso (platform.instant event.occurred_at)
      ++ ".")
  credit_or_park delivery event user_id (some rule) = credit delivery event user_id rule

  unfoldable pub process_user :
      WebhookDelivery → ActivityEvent → Option User → Action ProcessOutcome
  process_user delivery event none =
      park delivery.id unknown_user ("No user with external ref " ++ event.user_ref ++ ".")
  process_user delivery event (some user) = do
    rule ← query (resolve_rule event.activity_type (platform.instant event.occurred_at))
    credit_or_park delivery event user.id rule

  -- Past the schema: the event is stored on the delivery, checked for freshness, and resolved.
  unfoldable pub process_event : WebhookDelivery → ActivityEvent → Action ProcessOutcome
  process_event delivery event = do
    update_delivery (has_id delivery.id)
        (λ d. record d { user_ref = some event.user_ref; activity_type = some event.activity_type })
    if ltb (platform.instant event.occurred_at + max_event_age_ms) run.now
        then reject run.now delivery.id "occurred_at is more than 90 days in the past."
        else if ltb (run.now + max_event_future_ms) (platform.instant event.occurred_at)
        then reject run.now delivery.id "occurred_at is more than 1 hour in the future."
        else do
          user ← query (λ db. find? (λ u. u.external_ref == event.user_ref) db.users)
          process_user delivery event user

  unfoldable pub process_valid :
      WebhookDelivery → Json → Option ActivityEvent → Action ProcessOutcome
  process_valid delivery payload none =
      reject run.now delivery.id ("Schema validation failed — " ++ platform.issues payload)
  process_valid delivery payload (some event) =
      if contains_nul platform (event_json event)
      then reject run.now delivery.id "Payload contains a NUL character, which cannot be stored."
      else process_event delivery event

  unfoldable pub process_parsed : WebhookDelivery → Option Json → Action ProcessOutcome
  process_parsed delivery none = reject run.now delivery.id "Malformed JSON body."
  process_parsed delivery (some payload) =
      process_valid delivery payload (parse_event platform payload)

  unfoldable pub process_found : String → Option WebhookDelivery → Action ProcessOutcome
  process_found delivery_id none =
      raise (unexpected ("Delivery " ++ delivery_id ++ " does not exist."))
  process_found delivery_id (some delivery) =
      process_parsed delivery (platform.parse_json delivery.raw_payload)

  unfoldable pub process_delivery : String → Action ProcessOutcome
  process_delivery delivery_id = do
    delivery ← query (λ db. find? (has_id delivery_id) db.webhook_deliveries)
    process_found delivery_id delivery
