-- ===== src/Webhook/Route.antt =====
-- packages/api/src/modules/webhook/webhook.routes.ts: the handler of a delivery. Rate limits and logs
-- are left out.
pub mod Replies
pub mod Redelivery
use mini_rewards_integration.Prelude.{
  ℕ, String, Bool, true, false, not, ◌&&◌, ◌||◌, Option, none, some, ◌==◌, if◌then◌else◌,
}
use mini_rewards_integration.Prelude.Int.{ℤ}
use mini_rewards_integration.Database.Schema.{
  DeliveryStatus, received, processed, unmatched, rejected, failed, UnmatchedReason, Db,
}
use mini_rewards_integration.Database.Exec.{
  Error, Result, ok, err, Action, Client, pure, raise, ◌>>=◌, ◌>>◌, transaction,
}
use mini_rewards_integration.Webhook.Event.{Platform}
use mini_rewards_integration.Webhook.Statements.{update_delivery}
use mini_rewards_integration.Webhook.Signature.{
  Crypto, SignatureFailure, VerificationResult, valid, invalid, verify_signature,
}
use mini_rewards_integration.Webhook.{
  CaptureResult, capture_delivery, ProcessOutcome, credited, parked, refused, has_id, Run,
  process_delivery,
}

-- A request header, as Node gives it.
pub data Header : Type 0 where
  absent : Header
  once : String → Header
  repeated : Header

abbrev pub read_header : Header → Option String
read_header (once value) = some value
read_header _ = none

unfoldable pub is_terminal : DeliveryStatus → Bool
is_terminal processed = true
is_terminal unmatched = true
is_terminal rejected = true
is_terminal received = false
is_terminal failed = false

unfoldable pub status_code_for : DeliveryStatus → Bool → ℕ
status_code_for rejected mirrored_from_earlier = 400
status_code_for unmatched mirrored_from_earlier = 202
status_code_for _ mirrored_from_earlier = if mirrored_from_earlier then 200 else 202

abbrev pub outcome_status : ProcessOutcome → DeliveryStatus
outcome_status (credited id points balance_after already) = processed
outcome_status (parked reason detail) = unmatched
outcome_status (refused error) = rejected

abbrev pub already_credited : ProcessOutcome → Bool
already_credited (credited id points balance_after already) = already
already_credited _ = false

-- What follows the base of a response body.
pub data Detail : Type 0 where
  plain : Detail
  points_credited : (points balance_after : ℤ) → Detail
  reason_parked : UnmatchedReason → String → Detail
  invalid_payload : String → Detail

pub record Body : Type 0 where
  pub delivery_id : String
  pub status : DeliveryStatus
  pub duplicate : Bool
  pub detail : Detail

abbrev pub detail_of : ProcessOutcome → Detail
detail_of (credited id points balance_after already) = points_credited points balance_after
detail_of (parked reason detail) = reason_parked reason detail
detail_of (refused error) = invalid_payload error

unfoldable pub build_response_body : CaptureResult → ProcessOutcome → Body
build_response_body capture outcome = record {
  delivery_id = capture.delivery_id;
  status = outcome_status outcome;
  duplicate = capture.duplicate || already_credited outcome;
  detail = detail_of outcome;
}

pub data Reply : Type 0 where
  unauthenticated : Option SignatureFailure → Reply
  nul_in_body : Reply
  answered : (code : ℕ) → Body → Reply

pub record Request : Type 0 where
  pub partner : String
  pub raw_body : String
  pub signature : Header
  pub timestamp : Header

-- What the handler reads besides the request: the environment, the libraries, the clock and an id.
pub record Context : Type 0 where
  pub webhook_partner : String
  pub webhook_secret : String
  pub platform : Platform
  pub crypto : Crypto
  pub message : Error → String
  pub delivery_id : String
  pub run : Run

-- `.catch(async (error) => { ...; throw error })`
abbrev pub rescue : {A : Type 0} → (Error → Client A) → Result A × Db → Result A × Db
rescue handler (ok a, db) = (ok a, db)
rescue handler (err e, db) = handler e db

module _ (context : Context) where
  unfoldable pub mark_failed : String → Error → Action Unit
  mark_failed delivery_id error = do
    update_delivery (has_id delivery_id)
        (λ d. record d { status = failed; error = some (context.message error) })
    pure tt

  unfoldable pub record_failure : String → Error → Client ProcessOutcome
  record_failure delivery_id error = do transaction (mark_failed delivery_id error); raise error

  unfoldable pub process_or_fail : String → Client ProcessOutcome
  process_or_fail delivery_id db =
      rescue (record_failure delivery_id)
        (transaction (process_delivery context.platform context.run delivery_id) db)

  -- A settled duplicate is answered from its row; anything else is processed now.
  unfoldable pub handle_captured : CaptureResult → Client Reply
  handle_captured capture =
      if capture.duplicate && is_terminal capture.status
      then pure (
          answered (status_code_for capture.status true) (record {
            delivery_id = capture.delivery_id;
            status = capture.status;
            duplicate = true;
            detail = plain;
          }))
      else (do
        outcome ← process_or_fail capture.delivery_id
        pure (
            answered (status_code_for (outcome_status outcome) false)
              (build_response_body capture outcome)))

  unfoldable pub handle_verified : Request → VerificationResult → Client Reply
  handle_verified request (invalid reason) = pure (unauthenticated (some reason))
  handle_verified request valid =
      if context.platform.includes_nul request.raw_body then pure nul_in_body else (do
        capture ← transaction (
            capture_delivery context.platform context.delivery_id context.run.now request.partner
              request.raw_body)
        handle_captured capture)

  abbrev pub verification : Request → VerificationResult
  verification request = verify_signature context.crypto context.run.now (record {
    secret = context.webhook_secret;
    raw_body = request.raw_body;
    signature = read_header request.signature;
    timestamp = read_header request.timestamp;
    now = none;
  })

  unfoldable pub handle_delivery : Request → Client Reply
  handle_delivery request =
      if request.partner == context.webhook_partner
      then handle_verified request (verification request)
      else pure (unauthenticated none)
