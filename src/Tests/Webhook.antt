-- ===== src/Tests/Webhook.antt =====
-- A purchase that was parked and is replayed, and requests to the route, with the results at each.
use mini_rewards_integration.Prelude.{
  ℕ, ◌+◌, true, false, ◌≡◌, ◌≢◌, ◌↔◌, refl, none, some, [], ◌∷◌, ◌==◌, update_where,
}
use mini_rewards_integration.Prelude.Int.{pos, ◌+ℤ◌, negate}
use mini_rewards_integration.Database.Json.{text, object, end, field}
use mini_rewards_integration.Database.Schema.{
  processed, unmatched, unknown_user, WebhookDelivery, Db,
}
use mini_rewards_integration.Database.Exec.{ok, transaction}
use mini_rewards_integration.Earning.{resolve_rule}
use mini_rewards_integration.Webhook.Event.{Platform, parse_event, contains_nul}
use mini_rewards_integration.Webhook.Statements.{insert_delivery, update_delivery}
use mini_rewards_integration.Webhook.{
  capture_delivery, captured, reject, park, Run, credit, credit_or_park, process_user,
  process_event, process_valid, process_parsed, process_found, process_delivery,
  resolve_delivery_key,
}
use mini_rewards_integration.Webhook.Backfill.{BackfillFilter, BackfillResult, backfill_unmatched}
use mini_rewards_integration.Webhook.Signature.{
  whole, outside_window, age_ms, Crypto, VerifyInput, valid, sign, verify_aged, verify_given,
  verify_signature, IsAuthentic, verify_signature_iff,
}
use mini_rewards_integration.Webhook.Route.{
  handle_verified, handle_captured, process_or_fail, build_response_body, absent, once, Request,
  Body, points_credited, answered, plain, Context, verification, handle_delivery, is_terminal,
  status_code_for,
}
use mini_rewards_integration.Webhook.Route.Redelivery.{settled_code, handle_delivery_again}
use mini_rewards_integration.Webhook.Route.Replies.{handle_delivery_unverified, named_delivery}
use mini_rewards_integration.Tests.{ledger_run, empty_shop}

-- A platform on which every body decodes to one purchase.
abbrev platform : Platform
platform = record {
  parse_json = λ s. some (
      object (
        field "event_id" (text "evt1") (
          field "user_ref" (text "ada")
            (field "activity_type" (text "PURCHASE") (field "occurred_at" (text "noon") end)))));
  sha256_hex = λ s. s;
  is_datetime = λ s. true;
  instant = λ s. 1000;
  to_iso = λ t. "noon";
  includes_nul = λ s. false;
  issues = λ j. "";
}

abbrev parked_delivery : WebhookDelivery
parked_delivery = record {
  id = "w1";
  partner = "acme";
  external_event_id = "evt1";
  status = unmatched;
  unmatched_reason = some unknown_user;
  raw_payload = "body";
  user_ref = some "ada";
  activity_type = some "PURCHASE";
  error = none;
  attempts = 1;
  received_at = 1500;
  processed_at = none;
}

abbrev inbox : Db
inbox = record empty_shop { webhook_deliveries = parked_delivery ∷ [] }

abbrev run : Run
run = record { entry_id = "t1"; now = 2000 }

abbrev for_ada : BackfillFilter
for_ada = record { user_ref = some "ada"; activity_type = none }

abbrev one_processed : BackfillResult
one_processed = record {
  examined = 1;
  processed = 1;
  still_unmatched = 0;
  rejected = 0;
  skipped = 0;
}

abbrev after_backfill : Db
after_backfill = (transaction (backfill_unmatched platform (λ k. run) for_ada) inbox).1

abbrev crypto : Crypto
crypto = record {
  hmac = λ secret message. message;
  byte_length = λ s. 64;
  timing_safe_equal = λ a b. a == b;
  number = λ s. some (whole 2);
}

abbrev signed_input : VerifyInput
signed_input = record {
  secret = "s3";
  raw_body = "body";
  signature = some "2.body";
  timestamp = some "2";
  now = none;
}

verify_signature_iff_example :
    (verify_signature crypto 2000 signed_input ≡ valid) ↔ IsAuthentic crypto 2000 signed_input
verify_signature_iff_example = verify_signature_iff crypto (λ a b same. refl) 2000 signed_input

abbrev pub context : Context
context = record {
  webhook_partner = "acme";
  webhook_secret = "s3";
  platform = platform;
  crypto = crypto;
  message = λ e. "failed";
  delivery_id = "w2";
  run = run;
}

abbrev unsigned_request : Request
unsigned_request = record {
  partner = "acme";
  raw_body = "body";
  signature = absent;
  timestamp = once "2";
}

unsigned : verification context unsigned_request ≢ valid
unfolding verify_signature verify_given
unsigned h = cc

handle_delivery_unverified_example : (handle_delivery context unsigned_request inbox).1 ≡ inbox
handle_delivery_unverified_example =
    handle_delivery_unverified context unsigned_request inbox unsigned

abbrev signed_request : Request
signed_request = record unsigned_request { signature = once "2.body" }

signed : verification context signed_request ≡ valid
unfolding verify_signature verify_given verify_aged sign outside_window age_ms ◌+ℤ◌ negate
signed = refl

abbrev first_answer : Body
first_answer = record {
  delivery_id = context.delivery_id;
  status = processed;
  duplicate = false;
  detail = points_credited (pos 50) (pos 50);
}

abbrev after_first : Db
after_first = (handle_delivery context signed_request empty_shop).1

run-first :
    handle_delivery context signed_request empty_shop
    ≡ (ok (answered 202 first_answer), after_first)
unfolding ledger_run handle_delivery handle_verified verify_signature verify_given verify_aged sign
    outside_window age_ms capture_delivery insert_delivery captured handle_captured process_or_fail
    process_delivery process_found process_parsed process_valid process_event process_user
    credit_or_park credit reject park resolve_rule contains_nul parse_event build_response_body
    is_terminal status_code_for update_delivery resolve_delivery_key
run-first = refl

abbrev again_run : Run
again_run = record { entry_id = "t5"; now = 2001 }

signed_again :
    verification (record context { delivery_id = "w7"; run = again_run }) signed_request ≡ valid
unfolding verify_signature verify_given verify_aged sign outside_window age_ms ◌+ℤ◌ negate
signed_again = refl

handle_delivery_again_example :
    (repeat_code : ℕ) × (settled_code processed ≡ some repeat_code)
    × (handle_delivery
          (record context { delivery_id = "w7"; run = again_run })
          signed_request
          after_first
        ≡ (
          ok (
              answered repeat_code (record {
                delivery_id = context.delivery_id;
                status = processed;
                duplicate = true;
                detail = plain;
              })),
          record after_first {
            webhook_deliveries =
                update_where
                  (named_delivery context signed_request)
                  (λ d. record d { attempts = d.attempts + 1 })
                  after_first.webhook_deliveries;
          },
        ))
handle_delivery_again_example =
    handle_delivery_again context "w7" again_run signed_request signed_request empty_shop run-first
      refl refl signed_again refl
