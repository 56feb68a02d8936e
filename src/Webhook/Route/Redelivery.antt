-- ===== src/Webhook/Route/Redelivery.antt =====
-- A delivery that a partner sends again (packages/api/src/modules/webhook/webhook.routes.ts).
use mini_rewards_integration.Prelude.{
  ℕ, ◌+◌, String, true, false, ◌≡◌, ◌∙◌, refl, inl, inr, [], Option, none, some, ◌==◌, ◌&&◌, exists,
  find-some, find-holds, find-update_where, eq_refl, arith, update_where, Bool-cases,
}
use mini_rewards_integration.Database.Schema.{
  DeliveryStatus, received, processed, unmatched, rejected, failed, WebhookDelivery, Db,
}
use mini_rewards_integration.Database.Exec.{
  Error, Result, ok, err, Session, proceed, raise, transaction,
}
use mini_rewards_integration.Database.Ends.{Ends, Ends-eq, Ends-proceed, Ends-map, transaction-Ends}
use mini_rewards_integration.Webhook.Event.{Platform}
use mini_rewards_integration.Webhook.Statements.{is_delivery, insert_delivery, update_delivery}
use mini_rewards_integration.Webhook.Signature.{VerificationResult, valid, invalid}
use mini_rewards_integration.Webhook.{
  CaptureResult, ProcessOutcome, credited, parked, refused, Run, resolve_delivery_key, captured,
  capture_delivery, process_delivery,
}
use mini_rewards_integration.Webhook.Settled.{Held, HeldAs, status_after, process_delivery-Settles}
use mini_rewards_integration.Webhook.Route.{
  Reply, Request, answered, plain, Body, Context, verification, rescue, record_failure,
  process_or_fail, outcome_status, build_response_body, handle_captured, handle_verified,
  handle_delivery, is_terminal, status_code_for,
}
use mini_rewards_integration.Webhook.Route.Replies.{named_delivery, handle_delivery_replay}

-- A delivery is captured under its key, with the id and the status that are reported.
capture_delivery-HeldAs :
    (platform : Platform) (id : String) (now : ℕ) (partner raw_payload : String) (s : Session)
    → Ends
        (λ c s'.
          HeldAs partner (resolve_delivery_key platform raw_payload) c.delivery_id c.status s'.db
          × (platform.includes_nul (resolve_delivery_key platform raw_payload) ≡ false))
        (capture_delivery platform id now partner raw_payload s)
unfolding capture_delivery insert_delivery captured update_delivery
capture_delivery-HeldAs platform id now partner raw_payload s =
    let key = resolve_delivery_key platform raw_payload in
    let rows = s.db.webhook_deliveries in
    elim (Bool-cases (platform.includes_nul key)) [
      | inl nul ↦ rw nul tt
      | inr clean ↦ elim (Bool-cases (exists (is_delivery partner key) rows)) [
        | inl known ↦
            let (row, found) = find-some (is_delivery partner key) rows known in
            let counted = λ (d : WebhookDelivery). record d { attempts = d.attempts + 1 } in
            rw (clean, known)
              (rw found (
                (
                  counted row,
                  find-update_where (is_delivery partner key) (is_delivery partner key) counted rows
                        row (λ d. refl) found
                      ∙ rw (find-holds (is_delivery partner key) rows row found) refl,
                  refl,
                  refl,
                ),
                refl,
              ))
        | inr new ↦ elim (Bool-cases (exists (λ d. d.id == id) rows)) [
          | inl taken ↦ rw (clean, new, taken) tt
          | inr free ↦
              let row : WebhookDelivery = record {
                id = id;
                partner = partner;
                external_event_id = key;
                status = received;
                unmatched_reason = none;
                raw_payload = raw_payload;
                user_ref = none;
                activity_type = none;
                error = none;
                attempts = 1;
                received_at = now;
                processed_at = none;
              } in
              rw (clean, new, free)
                ((row, rw (eq_refl partner, eq_refl key) refl, refl, refl), refl)
        ]
      ]
    ]

-- The code of a delivery that is settled, when it comes again; none for one that is not.
abbrev pub settled_code : DeliveryStatus → Option ℕ
settled_code processed = some 200
settled_code unmatched = some 202
settled_code rejected = some 400
settled_code received = none
settled_code failed = none

outcome-settled :
    (outcome : ProcessOutcome)
    → (outcome_status outcome ≡ status_after outcome)
      × (is_terminal (outcome_status outcome) ≡ true)
unfolding is_terminal
outcome-settled (credited id points balance_after already) = (refl, refl)
outcome-settled (parked reason detail) = (refl, refl)
outcome-settled (refused error) = (refl, refl)

-- What an answer says of the delivery is what its row says, and it is settled.
abbrev Answers : Context → String → String → Reply → Db → Type 0
Answers context partner key (answered code body) db =
    HeldAs partner key body.delivery_id body.status db
    × (is_terminal body.status ≡ true)
    × (context.platform.includes_nul key ≡ false)
    × ((partner == context.webhook_partner) ≡ true)
Answers context partner key reply db = Unit

module _ (context : Context) (partner key : String) where
  process_or_fail-HeldAs :
      (id : String) (db : Db)
      → Held partner key id db
      → Ends
          (λ outcome after. HeldAs partner key id (status_after outcome) after)
          (process_or_fail context id db)
  unfolding process_or_fail record_failure
  process_or_fail-HeldAs id db h =
      rescued (transaction (process_delivery context.platform context.run id) db) (
        transaction-Ends _ (process_delivery context.platform context.run id) db
          (process_delivery-Settles partner key id context.platform context.run _ h))
    where
      thrown :
          {B : Type 0} (Q : ProcessOutcome → Db → Type 0) (e : Error) (r : Result B × Db)
          → Ends Q (proceed {S = Db} (λ b. raise e) r)
      thrown Q e (ok b, after) = tt
      thrown Q e (err other, after) = tt

      rescued :
          (r : Result ProcessOutcome × Db)
          → Ends (λ outcome after. HeldAs partner key id (status_after outcome) after) r
          → Ends
              (λ outcome after. HeldAs partner key id (status_after outcome) after)
              (rescue (record_failure context id) r)
      rescued (ok outcome, after) settled = settled
      rescued (err e, after) settled = thrown _ e _

  handle_captured-Answers :
      (c : CaptureResult) (db : Db)
      → HeldAs partner key c.delivery_id c.status db
      → context.platform.includes_nul key ≡ false
      → (partner == context.webhook_partner) ≡ true
      → Ends (Answers context partner key) (handle_captured context c db)
  unfolding handle_captured build_response_body
  handle_captured-Answers c db held clean ours =
      elim (Bool-cases (c.duplicate && is_terminal c.status)) [
        | inl repeat ↦ rw repeat (held, ground arith, clean, ours)
        | inr now ↦
            let (row, found, same, status) = held in
            rw now (
              Ends-proceed (Answers context partner key) _
                (process_or_fail context c.delivery_id db)
                (Ends-map _ (process_or_fail context c.delivery_id db)
                  (process_or_fail-HeldAs c.delivery_id db (row, found, same))
                  λ outcome after settled.
                    let (agrees, terminal) = outcome-settled outcome in
                    (rw agrees settled, terminal, clean, ours)))
      ]

handle_verified-Answers :
    (context : Context) (request : Request) (v : VerificationResult) (db : Db)
    → (request.partner == context.webhook_partner) ≡ true
    → Ends
        (Answers context request.partner (resolve_delivery_key context.platform request.raw_body))
        (handle_verified context request v db)
unfolding handle_verified
handle_verified-Answers context request (invalid reason) db ours = tt
handle_verified-Answers context request valid db ours =
    let key = resolve_delivery_key context.platform request.raw_body in
    let capture =
      capture_delivery context.platform context.delivery_id context.run.now request.partner
        request.raw_body in
    elim (Bool-cases (context.platform.includes_nul request.raw_body)) [
      | inl nul ↦ rw nul tt
      | inr storable ↦ rw storable (
          Ends-proceed (Answers context request.partner key) _ (transaction capture db) (
            Ends-map _ (transaction capture db)
              (transaction-Ends _ capture db (
                capture_delivery-HeldAs context.platform context.delivery_id context.run.now
                  request.partner request.raw_body (record { db = db; locks = [] })))
              λ c after held.
                handle_captured-Answers context request.partner key c after held.0 held.1 ours))
    ]

handle_delivery-Answers :
    (context : Context) (request : Request) (db : Db)
    → Ends
        (Answers context request.partner (resolve_delivery_key context.platform request.raw_body))
        (handle_delivery context request db)
unfolding handle_delivery
handle_delivery-Answers context request db =
    elim (Bool-cases (request.partner == context.webhook_partner)) [
      | inl ours ↦
          rw ours (handle_verified-Answers context request (verification context request) db ours)
      | inr unknown ↦ rw unknown tt
    ]

code_of-terminal :
    (status : DeliveryStatus)
    → is_terminal status ≡ true
    → settled_code status ≡ some (status_code_for status true)
unfolding is_terminal status_code_for
code_of-terminal processed h = refl
code_of-terminal unmatched h = refl
code_of-terminal rejected h = refl
code_of-terminal received h = cc
code_of-terminal failed h = cc

-- A delivery that was answered is settled: its status is processed, unmatched or rejected. When a
-- verified request of the same partner names it again, at any time and whatever else its body then
-- says, the answer has the same id and status, with the code 200, 202 or 400 of that status and the
-- mark of a duplicate, and the tables change in nothing but the count of its attempts: no points move.
pub handle_delivery_again :
    (context : Context) (id : String) (run : Run) (request again : Request) (db : Db) {code : ℕ}
    {body : Body} {after : Db}
    → handle_delivery context request db ≡ (ok (answered code body), after)
    → again.partner ≡ request.partner
    → resolve_delivery_key context.platform again.raw_body
      ≡ resolve_delivery_key context.platform request.raw_body
    → verification (record context { delivery_id = id; run = run }) again ≡ valid
    → context.platform.includes_nul again.raw_body ≡ false
    → (repeat_code : ℕ) × (settled_code body.status ≡ some repeat_code)
      × (handle_delivery (record context { delivery_id = id; run = run }) again after ≡ (
        ok (
            answered repeat_code (record {
              delivery_id = body.delivery_id;
              status = body.status;
              duplicate = true;
              detail = plain;
            })),
        record after {
          webhook_deliveries =
              update_where
                (named_delivery context again)
                (λ d. record d { attempts = d.attempts + 1 })
                after.webhook_deliveries;
        },
      ))
handle_delivery_again context id run request again db {code} {body} {after} done same_partner
      same_key verified storable =
    let ((row, found, same, status), terminal, clean, ours) =
      Ends-eq _ (handle_delivery context request db) (handle_delivery-Answers context request db)
        done in
    let replay =
      handle_delivery_replay (record context { delivery_id = id; run = run }) again after row
        (rw same_partner ours) verified storable (rw same_key clean)
        (rw (same_partner, same_key) found) (rw status terminal) in
    (
      status_code_for body.status true,
      code_of-terminal body.status terminal,
      rw (same, status) at replay,
    )
