-- ===== src/Webhook/Statements.antt =====
-- The statements that packages/api/src/modules/webhook/webhook.service.ts sends to
-- webhook_deliveries.
use mini_rewards_integration.Prelude.{
  String, Bool, ◌&&◌, Option, none, some, ◌∷◌, ◌==◌, find?, exists, update_where, if◌then◌else◌,
}
use mini_rewards_integration.Database.Schema.{WebhookDelivery}
use mini_rewards_integration.Database.Exec.{
  unique_violation, record_not_found, invalid_text, database, ok, err, Lock, acquire, Action,
}

-- The unique index (partner, external_event_id).
abbrev pub is_delivery : String → String → WebhookDelivery → Bool
is_delivery partner external_event_id d =
    d.partner == partner && d.external_event_id == external_event_id

-- A text column holds no NUL character, which `includes_nul` tells; the other texts of a row were looked
-- through before.
-- `INSERT ... ON CONFLICT (partner, external_event_id) DO NOTHING RETURNING id, status`
unfoldable pub insert_delivery : (String → Bool) → WebhookDelivery → Action (Option WebhookDelivery)
insert_delivery includes_nul row s =
    if includes_nul row.external_event_id
    then (err (database invalid_text), s)
    else if exists (is_delivery row.partner row.external_event_id) s.db.webhook_deliveries
    then (ok none, s)
    else if exists (λ d. d.id == row.id) s.db.webhook_deliveries
    then (err (database unique_violation), s)
    else (
      ok (some row),
      record s { db = record s.db { webhook_deliveries = row ∷ s.db.webhook_deliveries } },
    )

-- `webhookDelivery.update`: throws where no row is found, and gives back the row as it then is.
unfoldable pub update_delivery :
    (WebhookDelivery → Bool) → (WebhookDelivery → WebhookDelivery) → Action WebhookDelivery
update_delivery is_row change s = elim (find? is_row s.db.webhook_deliveries) [
  | none ↦ (err (database record_not_found), s)
  | some row ↦ (
    ok (change row),
    record {
      db = record s.db { webhook_deliveries = update_where is_row change s.db.webhook_deliveries };
      locks = acquire (Lock.delivery row.id) s.locks;
    },
  )
]
