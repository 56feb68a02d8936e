-- ===== src/Webhook/Route/Replies.antt =====
-- The replies of the webhook route (packages/api/src/modules/webhook/webhook.routes.ts).
use mini_rewards_integration.Prelude.{
  ℕ, ◌+◌, String, Bool, true, false, ◌≡◌, ◌≢◌, refl, inl, inr, some, ◌==◌, find?, exists-find,
  update_where, Bool-cases,
}
use mini_rewards_integration.Database.Schema.{WebhookDelivery, Db}
use mini_rewards_integration.Database.Exec.{Error, Result, ok, err, Client}
use mini_rewards_integration.Database.Keeps.{
  Preserves, preserves_rules, Keeps, keeps_rules, Preserves-transaction,
}
use mini_rewards_integration.Ledger.Balances.{IsReconciled}
use mini_rewards_integration.Webhook.Statements.{is_delivery, insert_delivery, update_delivery}
use mini_rewards_integration.Webhook.Signature.{VerificationResult, valid, invalid}
use mini_rewards_integration.Webhook.{
  CaptureResult, resolve_delivery_key, captured, capture_delivery,
}
use mini_rewards_integration.Ledger.Invariant.{IsLedgerInvariant, IsReconciled-IsLedgerInvariant}
use mini_rewards_integration.Webhook.Books.{
  capture_delivery-Keeps, process_delivery-Keeps, update_delivery-Keeps,
}
use mini_rewards_integration.Webhook.Route.{
  Request, answered, plain, Context, verification, rescue, mark_failed, record_failure,
  process_or_fail, handle_captured, handle_verified, handle_delivery, is_terminal, status_code_for,
}

handle_verified-refused :
    (context : Context) (request : Request) (v : VerificationResult) (db : Db)
    → v ≢ valid
    → (handle_verified context request v db).1 ≡ db
unfolding handle_verified
handle_verified-refused context request valid db h = absurd (h refl)
handle_verified-refused context request (invalid reason) db h = refl

-- A request that does not verify changes nothing in any table.
pub handle_delivery_unverified :
    (context : Context) (request : Request) (db : Db)
    → verification context request ≢ valid
    → (handle_delivery context request db).1 ≡ db
unfolding handle_delivery
handle_delivery_unverified context request db h =
    elim (Bool-cases (request.partner == context.webhook_partner)) [
      | inl ours ↦
          rw ours (handle_verified-refused context request (verification context request) db h)
      | inr unknown ↦ rw unknown refl
    ]

-- The delivery that a request names.
abbrev pub named_delivery : Context → Request → WebhookDelivery → Bool
named_delivery context request =
    is_delivery request.partner (resolve_delivery_key context.platform request.raw_body)

-- A verified request that names a delivery already settled is answered from that row, with the code
-- of a repeat, and only counts one more attempt on it: no points move, whatever its body says now.
pub handle_delivery_replay :
    (context : Context) (request : Request) (db : Db) (row : WebhookDelivery)
    → (request.partner == context.webhook_partner) ≡ true
    → verification context request ≡ valid
    → context.platform.includes_nul request.raw_body ≡ false
    → context.platform.includes_nul (resolve_delivery_key context.platform request.raw_body) ≡ false
    → find? (named_delivery context request) db.webhook_deliveries ≡ some row
    → is_terminal row.status ≡ true
    → handle_delivery context request db ≡ (
      ok (
          answered (status_code_for row.status true) (record {
            delivery_id = row.id;
            status = row.status;
            duplicate = true;
            detail = plain;
          })),
      record db {
        webhook_deliveries =
            update_where
              (named_delivery context request)
              (λ d. record d { attempts = d.attempts + 1 })
              db.webhook_deliveries;
      },
    )
unfolding handle_delivery handle_verified capture_delivery insert_delivery captured update_delivery
    handle_captured
handle_delivery_replay context request db row ours verified storable keyed found settled =
    let known = exists-find (named_delivery context request) db.webhook_deliveries row found in
    rw (ours, verified, storable) (rw (keyed, known) (rw found (rw settled refl)))

module _ (P : Db → Type 0) (laws : IsLedgerInvariant P) (context : Context) where
  mark_failed-Keeps : (id : String) (e : Error) → Keeps P (mark_failed context id e)
  unfolding mark_failed
  mark_failed-Keeps id e = search (keeps_rules, update_delivery-Keeps P laws)

  record_failure-Preserves : (id : String) (e : Error) → Preserves P (record_failure context id e)
  unfolding record_failure
  record_failure-Preserves id e = search (preserves_rules, mark_failed-Keeps)

  rescue-Preserves :
      {A : Type 0} (handler : Error → Client A)
      → ((e : Error) → Preserves P (handler e))
      → (r : Result A × Db) → P r.1
      → P (rescue handler r).1
  rescue-Preserves handler kept (ok a, db) h = h
  rescue-Preserves handler kept (err e, db) h = (kept e).at db h

  process_or_fail-Preserves : (id : String) → Preserves P (process_or_fail context id)
  unfolding process_or_fail
  process_or_fail-Preserves id = record {
    at = λ db h. rescue-Preserves (record_failure context id) (record_failure-Preserves id) _ (
        (Preserves-transaction _ (process_delivery-Keeps P laws context.platform context.run id)).at
          db h);
  }

  captured_law :
      (id : String) (now : ℕ) (partner raw_payload : String)
      → Keeps P (capture_delivery context.platform id now partner raw_payload)
  captured_law = capture_delivery-Keeps P laws context.platform

  ruleset route_rules = (preserves_rules, process_or_fail-Preserves, captured_law)

  handle_captured-Preserves : (c : CaptureResult) → Preserves P (handle_captured context c)
  unfolding handle_captured
  handle_captured-Preserves c = search route_rules

  handle_verified-Preserves :
      (request : Request) (v : VerificationResult) → Preserves P (handle_verified context request v)
  unfolding handle_verified
  handle_verified-Preserves request (invalid reason) = search route_rules
  handle_verified-Preserves request valid = search (route_rules, handle_captured-Preserves)

  pub handle_delivery-Preserves :
      (request : Request) → Preserves P (handle_delivery context request)
  unfolding handle_delivery
  handle_delivery-Preserves request = search (route_rules, handle_verified-Preserves)

-- Whatever a partner sends, and also where processing throws and the delivery is marked as failed,
-- every cached balance is still the sum of its ledger.
handle_delivery-IsReconciled :
    (context : Context) (request : Request) (db : Db)
    → IsReconciled db
    → IsReconciled (handle_delivery context request db).1
handle_delivery-IsReconciled context request =
    (handle_delivery-Preserves IsReconciled IsReconciled-IsLedgerInvariant context request).at
