-- ===== src/Webhook/Books.antt =====
-- The tables' properties that capturing, processing and replaying deliveries have to keep
-- (packages/api/src/modules/webhook/webhook.service.ts).
use mini_rewards_integration.Prelude.{
  ℕ, suc, String, Bool, true, false, ◌&&◌, refl, inl, inr, Option, none, some, List, [], ◌∷◌, ◌==◌,
  find?, exists, Bool-cases, Option-cases,
}
use mini_rewards_integration.Database.Json.{Json}
use mini_rewards_integration.Database.Schema.{UnmatchedReason, User, WebhookDelivery, Db}
use mini_rewards_integration.Database.Exec.{Action, transaction}
use mini_rewards_integration.Database.Keeps.{Keeps, keeps_rules, Keeps-transaction}
use mini_rewards_integration.Earning.{ResolvedRule}
use mini_rewards_integration.Ledger.{AppendEntryInput, append_entry}
use mini_rewards_integration.Ledger.Unique.{HasUniqueEvents}
use mini_rewards_integration.Ledger.Balances.{IsReconciled}
use mini_rewards_integration.Ledger.Invariant.{
  IsLedgerInvariant, IsReconciled-IsLedgerInvariant, UniqueEvents, UniqueEvents-IsLedgerInvariant,
}
use mini_rewards_integration.Webhook.Event.{Platform, ActivityEvent}
use mini_rewards_integration.Webhook.Statements.{is_delivery, insert_delivery, update_delivery}
use mini_rewards_integration.Webhook.{
  captured, capture_delivery, reject, park, Run, credit, credit_or_park, process_user,
  process_event, process_valid, process_parsed, process_found, process_delivery, has_id,
}
use mini_rewards_integration.Webhook.Backfill.{
  BackfillFilter, BackfillResult, is_unmatched, claim_unmatched, with_filter, replay_claimed,
  replay, replay_all, replay_candidates, backfill_unmatched,
}

module _ (P : Db → Type 0) (laws : IsLedgerInvariant P) where
  insert_delivery-Keeps :
      (includes_nul : String → Bool) (row : WebhookDelivery)
      → Keeps P (insert_delivery includes_nul row)
  unfolding insert_delivery
  insert_delivery-Keeps includes_nul row = record {
    at = λ s h. elim (Bool-cases (includes_nul row.external_event_id)) [
      | inl nul ↦ rw nul tt
      | inr storable ↦
          elim (Bool-cases
            (exists (is_delivery row.partner row.external_event_id) s.db.webhook_deliveries)) [
              | inl known ↦ rw (storable, known) h
              | inr new ↦ elim (Bool-cases (exists (λ d. d.id == row.id) s.db.webhook_deliveries)) [
                | inl taken ↦ rw (storable, new, taken) tt
                | inr free ↦ rw (storable, new, free) (laws.apart s.db _ refl refl h)
              ]
            ]
    ];
  }

  pub update_delivery-Keeps :
      (is_row : WebhookDelivery → Bool) (change : WebhookDelivery → WebhookDelivery)
      → Keeps P (update_delivery is_row change)
  unfolding update_delivery
  update_delivery-Keeps is_row change = record {
    at = λ s h. elim (Option-cases (find? is_row s.db.webhook_deliveries)) [
      | inl missing ↦ rw (missing, update_delivery) tt
      | inr (row, found) ↦ rw (found, update_delivery) (laws.apart s.db _ refl refl h)
    ];
  }

  claim_unmatched-Keeps : (id : String) → Keeps P (claim_unmatched id)
  unfolding claim_unmatched
  claim_unmatched-Keeps id = record {
    at = λ s h.
        elim (Bool-cases
          (exists (λ d. has_id id d && is_unmatched d.status) s.db.webhook_deliveries)) [
            | inl held ↦ rw held (laws.apart s.db _ refl refl h)
            | inr gone ↦ rw gone h
          ];
  }

  appended-Keeps :
      (id : String) (now : ℕ) (input : AppendEntryInput) → Keeps P (append_entry id now input)
  appended-Keeps = laws.appends

  ruleset delivery_rules = (
    keeps_rules, appended-Keeps, insert_delivery-Keeps, update_delivery-Keeps,
    claim_unmatched-Keeps,
  )

  with_filter-Keeps :
      {A : Type 0} (u a : Option String) (m : Action A) → Keeps P m → Keeps P (with_filter u a m)
  unfolding with_filter
  with_filter-Keeps none none m km = search delivery_rules
  with_filter-Keeps none (some a) m km = km
  with_filter-Keeps (some u) a m km = km

  captured-Keeps :
      (partner key : String) (o : Option WebhookDelivery) → Keeps P (captured partner key o)
  unfolding captured
  captured-Keeps partner key none = search delivery_rules
  captured-Keeps partner key (some row) = search delivery_rules

  reject-Keeps : (now : ℕ) (id error : String) → Keeps P (reject now id error)
  unfolding reject
  reject-Keeps now id error = search delivery_rules

  park-Keeps :
      (id : String) (reason : UnmatchedReason) (detail : String) → Keeps P (park id reason detail)
  unfolding park
  park-Keeps id reason detail = search delivery_rules

  ruleset ending_rules = (delivery_rules, reject-Keeps, park-Keeps)

  module _ (platform : Platform) where
    pub capture_delivery-Keeps :
        (id : String) (now : ℕ) (partner raw_payload : String)
        → Keeps P (capture_delivery platform id now partner raw_payload)
    unfolding capture_delivery
    capture_delivery-Keeps id now partner raw_payload = search (delivery_rules, captured-Keeps)

    module _ (run : Run) where
      credit-Keeps :
          (d : WebhookDelivery) (e : ActivityEvent) (u : String) (rule : ResolvedRule)
          → Keeps P (credit platform run d e u rule)
      unfolding credit
      credit-Keeps d e u rule = search delivery_rules

      credit_or_park-Keeps :
          (d : WebhookDelivery) (e : ActivityEvent) (u : String) (rule : Option ResolvedRule)
          → Keeps P (credit_or_park platform run d e u rule)
      unfolding credit_or_park
      credit_or_park-Keeps d e u none = search ending_rules
      credit_or_park-Keeps d e u (some rule) = credit-Keeps d e u rule

      process_user-Keeps :
          (d : WebhookDelivery) (e : ActivityEvent) (user : Option User)
          → Keeps P (process_user platform run d e user)
      unfolding process_user
      process_user-Keeps d e none = search ending_rules
      process_user-Keeps d e (some user) = search (ending_rules, credit_or_park-Keeps)

      process_event-Keeps :
          (d : WebhookDelivery) (e : ActivityEvent) → Keeps P (process_event platform run d e)
      unfolding process_event
      process_event-Keeps d e = search (ending_rules, process_user-Keeps)

      process_valid-Keeps :
          (d : WebhookDelivery) (payload : Json) (e : Option ActivityEvent)
          → Keeps P (process_valid platform run d payload e)
      unfolding process_valid
      process_valid-Keeps d payload none = search ending_rules
      process_valid-Keeps d payload (some e) = search (ending_rules, process_event-Keeps)

      process_parsed-Keeps :
          (d : WebhookDelivery) (payload : Option Json)
          → Keeps P (process_parsed platform run d payload)
      unfolding process_parsed
      process_parsed-Keeps d none = search ending_rules
      process_parsed-Keeps d (some payload) = process_valid-Keeps d payload _

      process_found-Keeps :
          (id : String) (d : Option WebhookDelivery) → Keeps P (process_found platform run id d)
      unfolding process_found
      process_found-Keeps id none = search ending_rules
      process_found-Keeps id (some d) = process_parsed-Keeps d _

      pub process_delivery-Keeps : (id : String) → Keeps P (process_delivery platform run id)
      unfolding process_delivery
      process_delivery-Keeps id = search (ending_rules, process_found-Keeps)

    replay_claimed-Keeps :
        (run : Run) (id : String) (r : BackfillResult) (claimed : Bool)
        → Keeps P (replay_claimed platform run id r claimed)
    unfolding replay_claimed
    replay_claimed-Keeps run id r false = search delivery_rules
    replay_claimed-Keeps run id r true = search (delivery_rules, process_delivery-Keeps)

    replay-Keeps :
        (run : Run) (id : String) (r : BackfillResult) → Keeps P (replay platform run id r)
    unfolding replay
    replay-Keeps run id r = search (delivery_rules, replay_claimed-Keeps)

    replay_all-Keeps :
        (runs : ℕ → Run) (k : ℕ) (ids : List String) (r : BackfillResult)
        → Keeps P (replay_all platform runs k ids r)
    unfolding replay_all
    replay_all-Keeps runs k [] r = search delivery_rules
    replay_all-Keeps runs k (id ∷ ids) r =
        search (delivery_rules, replay-Keeps, replay_all-Keeps runs (suc k) ids)

    replay_candidates-Keeps :
        (runs : ℕ → Run) (ids : List String) → Keeps P (replay_candidates platform runs ids)
    unfolding replay_candidates
    replay_candidates-Keeps runs ids = replay_all-Keeps runs 0 ids _

    pub backfill_unmatched-Keeps :
        (runs : ℕ → Run) (filter : BackfillFilter)
        → Keeps P (backfill_unmatched platform runs filter)
    unfolding backfill_unmatched
    backfill_unmatched-Keeps runs filter =
        with_filter-Keeps filter.user_ref filter.activity_type _
          (search (delivery_rules, replay_candidates-Keeps))

-- However a delivery is interpreted, credited, parked or refused, and whether or not its transaction
-- throws, every cached balance is still the sum of its ledger.
process_delivery-IsReconciled :
    (platform : Platform) (run : Run) (delivery_id : String) (db : Db)
    → IsReconciled db
    → IsReconciled (transaction (process_delivery platform run delivery_id) db).1
process_delivery-IsReconciled platform run delivery_id db =
    Keeps-transaction (process_delivery platform run delivery_id) db
      (process_delivery-Keeps IsReconciled IsReconciled-IsLedgerInvariant platform run delivery_id)

-- A backfill keeps the books, whatever deliveries its filter takes in and however each one ends.
backfill_unmatched-IsReconciled :
    (platform : Platform) (runs : ℕ → Run) (filter : BackfillFilter) (db : Db)
    → IsReconciled db
    → IsReconciled (transaction (backfill_unmatched platform runs filter) db).1
backfill_unmatched-IsReconciled platform runs filter db =
    Keeps-transaction (backfill_unmatched platform runs filter) db
      (backfill_unmatched-Keeps IsReconciled IsReconciled-IsLedgerInvariant platform runs filter)

-- Processing a delivery keeps the events of the ledger unique: whatever was captured, replayed or
-- credited before, an event of a partner is credited at most once.
process_delivery-HasUniqueEvents :
    (platform : Platform) (run : Run) (delivery_id : String) (db : Db)
    → HasUniqueEvents db.point_transactions
    → HasUniqueEvents
        (transaction (process_delivery platform run delivery_id) db).1.point_transactions
process_delivery-HasUniqueEvents platform run delivery_id db =
    Keeps-transaction (process_delivery platform run delivery_id) db
      (process_delivery-Keeps UniqueEvents UniqueEvents-IsLedgerInvariant platform run delivery_id)

-- So does a backfill: none of its replays credits an event a second time.
backfill_unmatched-HasUniqueEvents :
    (platform : Platform) (runs : ℕ → Run) (filter : BackfillFilter) (db : Db)
    → HasUniqueEvents db.point_transactions
    → HasUniqueEvents
        (transaction (backfill_unmatched platform runs filter) db).1.point_transactions
backfill_unmatched-HasUniqueEvents platform runs filter db =
    Keeps-transaction (backfill_unmatched platform runs filter) db
      (backfill_unmatched-Keeps UniqueEvents UniqueEvents-IsLedgerInvariant platform runs filter)
