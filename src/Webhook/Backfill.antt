-- ===== src/Webhook/Backfill.antt =====
-- packages/api/src/modules/webhook/webhook.service.ts: `backfillUnmatched`. The k-th replay runs as
-- `runs k`.
pub mod Counts
use mini_rewards_integration.Prelude.{
  ℕ, suc, ◌+◌, String, Bool, true, false, ◌&&◌, Option, none, some, List, [], ◌∷◌, ◌==◌, map, leb,
  length, select, exists, update_where, if◌then◌else◌,
}
use mini_rewards_integration.Database.Schema.{
  DeliveryStatus, received, processed, unmatched, rejected, failed, WebhookDelivery, Db,
}
use mini_rewards_integration.Database.Exec.{
  unexpected, ok, Lock, Session, acquire, Action, pure, raise, ◌>>=◌, ◌>>◌, query,
}
use mini_rewards_integration.Webhook.Event.{Platform}
use mini_rewards_integration.Webhook.{
  ProcessOutcome, credited, parked, refused, has_id, Run, process_delivery,
}

pub record BackfillFilter : Type 0 where
  pub user_ref : Option String
  pub activity_type : Option String

pub record BackfillResult : Type 0 where
  pub examined : ℕ
  pub processed : ℕ
  pub still_unmatched : ℕ
  pub rejected : ℕ
  pub skipped : ℕ

abbrev pub is_unmatched : DeliveryStatus → Bool
is_unmatched unmatched = true
is_unmatched _ = false

-- A filter that is not given takes every row; a NULL column equals nothing.
abbrev pub column_is : Option String → Option String → Bool
column_is none column = true
column_is (some wanted) none = false
column_is (some wanted) (some value) = value == wanted

abbrev pub is_candidate : BackfillFilter → WebhookDelivery → Bool
is_candidate filter d =
    is_unmatched d.status
    && column_is filter.user_ref d.user_ref
    && column_is filter.activity_type d.activity_type

-- ORDER BY received_at
abbrev pub place_delivery : WebhookDelivery → List WebhookDelivery → List WebhookDelivery
place_delivery d [] = d ∷ []
place_delivery d (e ∷ es) =
    let later = place_delivery d es in
    if leb e.received_at d.received_at then e ∷ later else d ∷ e ∷ es

abbrev pub oldest_first : List WebhookDelivery → List WebhookDelivery
oldest_first [] = []
oldest_first (d ∷ ds) = place_delivery d (oldest_first ds)

unfoldable pub candidates : BackfillFilter → Db → List String
candidates filter db =
    map (λ d. d.id) (oldest_first (select (is_candidate filter) db.webhook_deliveries))

-- `UPDATE ... SET status = 'RECEIVED' ... WHERE id = ... AND status = 'UNMATCHED'`: whether a row was
-- affected
unfoldable pub claim_unmatched : String → Action Bool
claim_unmatched id s =
    let held = λ (d : WebhookDelivery). has_id id d && is_unmatched d.status in
    if exists held s.db.webhook_deliveries
    then (
      ok true,
      record {
        db = record s.db {
          webhook_deliveries =
              update_where held
                (λ d. record d { status = received; unmatched_reason = none; error = none })
                s.db.webhook_deliveries;
        };
        locks = acquire (Lock.delivery id) s.locks;
      },
    )
    else (ok false, s)

unfoldable pub tally : ProcessOutcome → BackfillResult → BackfillResult
tally (credited id points balance_after already) r = record r { processed = r.processed + 1 }
tally (parked reason detail) r = record r { still_unmatched = r.still_unmatched + 1 }
tally (refused error) r = record r { rejected = r.rejected + 1 }

-- A backfill with no filter at all is refused.
unfoldable pub with_filter : {A : Type 0} → Option String → Option String → Action A → Action A
with_filter none none m =
    raise (unexpected "backfillUnmatched requires at least one of userRef or activityType.")
with_filter none (some activity_type) m = m
with_filter (some user_ref) _ m = m

module _ (platform : Platform) where
  unfoldable pub replay_claimed : Run → String → BackfillResult → Bool → Action BackfillResult
  replay_claimed run id result false = pure (record result { skipped = result.skipped + 1 })
  replay_claimed run id result true = do
    outcome ← process_delivery platform run id
    pure (tally outcome result)

  -- one turn of the loop
  unfoldable pub replay : Run → String → BackfillResult → Action BackfillResult
  replay run id result = do claimed ← claim_unmatched id; replay_claimed run id result claimed

  unfoldable pub replay_all : (ℕ → Run) → ℕ → List String → BackfillResult → Action BackfillResult
  replay_all runs k [] result = pure result
  replay_all runs k (id ∷ ids) result = do
    next ← replay (runs k) id result
    replay_all runs (suc k) ids next

  unfoldable pub replay_candidates : (ℕ → Run) → List String → Action BackfillResult
  replay_candidates runs ids = replay_all runs 0 ids (record {
    examined = length ids;
    processed = 0;
    still_unmatched = 0;
    rejected = 0;
    skipped = 0;
  })

  unfoldable pub backfill_unmatched : (ℕ → Run) → BackfillFilter → Action BackfillResult
  backfill_unmatched runs filter =
      with_filter filter.user_ref filter.activity_type
        (do ids ← query (candidates filter); replay_candidates runs ids)
