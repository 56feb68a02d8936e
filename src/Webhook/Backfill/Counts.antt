-- ===== src/Webhook/Backfill/Counts.antt =====
-- The report of a backfill (packages/api/src/modules/webhook/webhook.service.ts).
use mini_rewards_integration.Prelude.{ℕ, ◌+◌, ◌≤◌, Bool, ◌≡◌, none, length, ◌&&◌, ◌||◌, filter_eq}
use mini_rewards_integration.Database.Schema.{WebhookDelivery}
use mini_rewards_integration.Database.Exec.{Result, ok, err, Session}
use mini_rewards_integration.Database.Ends.{Ends}
use mini_rewards_integration.Webhook.{ProcessOutcome, credited}
use mini_rewards_integration.Webhook.Backfill.{BackfillFilter, BackfillResult, is_unmatched}

-- The deliveries that a result accounts for.
abbrev pub accounted : BackfillResult → ℕ
accounted r = r.processed + r.still_unmatched + r.rejected + r.skipped

abbrev none_yet : ℕ → BackfillResult
none_yet n = record { examined = n; processed = 0; still_unmatched = 0; rejected = 0; skipped = 0 }

-- The entries that an outcome may have added to the ledger.
abbrev credits : ProcessOutcome → ℕ
credits (credited id points balance_after already) = 1
credits _ = 0

abbrev entries : Session → ℕ
entries s = length s.db.point_transactions

-- From `r` and `s` to `r'` and `s'`, `n` deliveries more are seen, of the same examined ones, and the
-- ledger grows by no more than the count of the processed.
abbrev Advances : ℕ → BackfillResult → Session → BackfillResult → Session → Type 0
Advances n r s r' s' =
    (r'.examined ≡ r.examined)
    × (accounted r' ≡ accounted r + n)
    × (entries s' + r.processed ≤ entries s + r'.processed)
    × (entries s ≤ entries s')

-- What is true of every outcome is true of the one a program ends with.
Ends-any :
    {S A : Type 0} {Q : A → S → Type 0} (r : Result A × S) → ((a : A) (s : S) → Q a s) → Ends Q r
Ends-any (ok a, s) h = h a s
Ends-any (err e, s) h = tt

-- A parked delivery that a filter takes in: each of the two that is given is the delivery's own.
abbrev pub taken_in : BackfillFilter → WebhookDelivery → Bool
taken_in filter d =
    is_unmatched d.status
    && (filter_eq filter.user_ref none || filter_eq d.user_ref filter.user_ref)
    && (filter_eq filter.activity_type none || filter_eq d.activity_type filter.activity_type)
