-- ===== src/Webhook/Settled.antt =====
-- What a delivery's row says when its processing has ended
-- (packages/api/src/modules/webhook/webhook.service.ts).
use mini_rewards_integration.Prelude.{
  ℕ, ◌+◌, String, Bool, true, false, ◌≡◌, refl, inl, inr, Option, none, some, eq_iff, eq_refl,
  find?, find-holds, find-update_where, ltb, ap, ◌∙◌, Bool-cases, Option-cases, if◌then◌else◌,
}
use mini_rewards_integration.Prelude.Int.{ℤ}
use mini_rewards_integration.Database.Json.{Json}
use mini_rewards_integration.Database.Schema.{
  DeliveryStatus, processed, unmatched, rejected, UnmatchedReason, User, WebhookDelivery, Db,
}
use mini_rewards_integration.Database.Exec.{Session, Action, pure, ◌>>◌}
use mini_rewards_integration.Database.Ends.{Ends, Ends-bind, Ends-proceed, Ends-map}
use mini_rewards_integration.Earning.{ResolvedRule}
use mini_rewards_integration.Ledger.{AppendEntryInput, append_entry}
use mini_rewards_integration.Ledger.Contract.{append_entry-Moves}
use mini_rewards_integration.Webhook.Event.{
  Platform, ActivityEvent, contains_nul, event_json, max_event_age_ms, max_event_future_ms,
}
use mini_rewards_integration.Webhook.Statements.{is_delivery, update_delivery}
use mini_rewards_integration.Webhook.{
  ProcessOutcome, credited, parked, refused, has_id, Run, reject, park, earning, credit,
  credit_or_park, process_user, process_event, process_valid, process_parsed, process_found,
  process_delivery,
}

-- How a row is left by the outcome that is reported for it.
abbrev pub status_after : ProcessOutcome → DeliveryStatus
status_after (credited id points balance_after already) = processed
status_after (parked reason detail) = unmatched
status_after (refused error) = rejected

-- A write that keeps the keys of a row.
abbrev pub KeepsKeys : (WebhookDelivery → WebhookDelivery) → Type 0
KeepsKeys change =
    (d : WebhookDelivery)
    → ((change d).id ≡ d.id)
      × ((change d).partner ≡ d.partner)
      × ((change d).external_event_id ≡ d.external_event_id)

module _ (partner key id : String) where
  -- The row of the key has this id.
  abbrev pub Held : Db → Type 0
  Held db =
      (row : WebhookDelivery) × (find? (is_delivery partner key) db.webhook_deliveries ≡ some row)
      × (row.id ≡ id)

  -- And this status.
  abbrev pub HeldAs : DeliveryStatus → Db → Type 0
  HeldAs status db =
      (row : WebhookDelivery) × (find? (is_delivery partner key) db.webhook_deliveries ≡ some row)
      × (row.id ≡ id)
      × (row.status ≡ status)

  same_key :
      (change : WebhookDelivery → WebhookDelivery)
      → KeepsKeys change
      → (d : WebhookDelivery) → is_delivery partner key (change d) ≡ is_delivery partner key d
  same_key change kept d = let (i, p, e) = kept d in rw (p, e) refl

  -- A write to the row of the id shows in the row of the key.
  update_delivery-HeldAs :
      (change : WebhookDelivery → WebhookDelivery) (status : DeliveryStatus) (s : Session)
      → KeepsKeys change
      → ((d : WebhookDelivery) → (change d).status ≡ status)
      → Held s.db
      → Ends (λ d s'. HeldAs status s'.db) (update_delivery (has_id id) change s)
  unfolding update_delivery
  update_delivery-HeldAs change status s kept set (row, found, same) =
      elim (Option-cases (find? (has_id id) s.db.webhook_deliveries)) [
        | inl missing ↦ rw (missing, update_delivery) tt
        | inr (d, there) ↦
            rw (there, update_delivery)
              (
                change row,
                find-update_where (is_delivery partner key) (has_id id) change
                      s.db.webhook_deliveries row (same_key change kept) found
                    ∙ rw (same, eq_refl id) refl,
                (kept row).0 ∙ same,
                set row,
              )
      ]

  update_delivery-Held :
      (change : WebhookDelivery → WebhookDelivery) (s : Session)
      → KeepsKeys change
      → Held s.db
      → Ends (λ d s'. Held s'.db) (update_delivery (has_id id) change s)
  unfolding update_delivery
  update_delivery-Held change s kept (row, found, same) =
      elim (Option-cases (find? (has_id id) s.db.webhook_deliveries)) [
        | inl missing ↦ rw (missing, update_delivery) tt
        | inr (d, there) ↦
            rw (there, update_delivery)
              (
                change row,
                find-update_where (is_delivery partner key) (has_id id) change
                      s.db.webhook_deliveries row (same_key change kept) found
                    ∙ rw (same, eq_refl id) refl,
                (kept row).0 ∙ same,
              )
      ]

  append_entry-Held :
      (entry_id : String) (now : ℕ) (input : AppendEntryInput) (s : Session)
      → Held s.db
      → Ends (λ res s'. Held s'.db) (append_entry entry_id now input s)
  append_entry-Held entry_id now input s (row, found, same) =
      Ends-map (λ res s'. Held s'.db) (append_entry entry_id now input s)
        (append_entry-Moves entry_id now input s)
        λ res s' m. (row, rw (ap (λ db. db.webhook_deliveries) m.elsewhere) found, same)

-- What a walk through the processing of one delivery needs: `H` holds until its points are appended, `C`
-- then, and `S` of the outcome at the end.
pub record IsEnding (id : String) (H C : Db → Type 0) (S : ProcessOutcome → Db → Type 0)
    : Type 0 where
  pub stored :
      (change : WebhookDelivery → WebhookDelivery) (s : Session)
      → KeepsKeys change
      → H s.db
      → Ends (λ d s'. H s'.db) (update_delivery (has_id id) change s)
  pub appended :
      (entry_id : String) (now : ℕ) (input : AppendEntryInput) (s : Session)
      → H s.db
      → Ends (λ res s'. C s'.db) (append_entry entry_id now input s)
  pub paid :
      (change : WebhookDelivery → WebhookDelivery) (transaction_id : String)
      (points balance_after : ℤ) (already : Bool) (s : Session)
      → KeepsKeys change
      → ((d : WebhookDelivery) → (change d).status ≡ processed)
      → C s.db
      → Ends
          (λ d s'. S (credited transaction_id points balance_after already) s'.db)
          (update_delivery (has_id id) change s)
  pub unpaid :
      (change : WebhookDelivery → WebhookDelivery) (outcome : ProcessOutcome) (s : Session)
      → KeepsKeys change
      → ((d : WebhookDelivery) → (change d).status ≡ status_after outcome)
      → H s.db
      → Ends (λ d s'. S outcome s'.db) (update_delivery (has_id id) change s)

module _ (id : String) (H C : Db → Type 0) (S : ProcessOutcome → Db → Type 0)
    (laws : IsEnding id H C S) where
  abbrev Q : ProcessOutcome → Session → Type 0
  Q outcome s = S outcome s.db

  -- A write to the row, and the outcome of that status.
  finish-Ending :
      (change : WebhookDelivery → WebhookDelivery) (outcome : ProcessOutcome) (s : Session)
      → KeepsKeys change
      → ((d : WebhookDelivery) → (change d).status ≡ status_after outcome)
      → H s.db
      → Ends Q ((update_delivery (has_id id) change >> pure outcome) s)
  finish-Ending change outcome s kept set h =
      Ends-bind Q (update_delivery (has_id id) change) (λ d. pure outcome) s
        (laws.unpaid change outcome s kept set h) λ d s' held. held

  reject-Ending : (now : ℕ) (error : String) (s : Session) → H s.db → Ends Q (reject now id error s)
  unfolding reject
  reject-Ending now error s h =
      finish-Ending
        (λ d. record d { status = rejected; error = some error; processed_at = some now })
        (refused error) s (λ d. (refl, refl, refl)) (λ d. refl) h

  park-Ending :
      (reason : UnmatchedReason) (detail : String) (s : Session)
      → H s.db
      → Ends Q (park id reason detail s)
  unfolding park
  park-Ending reason detail s h =
      finish-Ending
        (λ d. record d { status = unmatched; unmatched_reason = some reason; error = some detail })
        (parked reason detail) s (λ d. (refl, refl, refl)) (λ d. refl) h

  module _ (platform : Platform) (run : Run) (delivery : WebhookDelivery)
      (own : delivery.id ≡ id) where
    credit-Ending :
        (event : ActivityEvent) (user_id : String) (rule : ResolvedRule) (s : Session)
        → H s.db
        → Ends Q (credit platform run delivery event user_id rule s)
    unfolding credit
    credit-Ending event user_id rule s h =
        let done = λ (d : WebhookDelivery). record d {
          status = processed;
          unmatched_reason = none;
          error = none;
          processed_at = some run.now;
        } in
        Ends-proceed Q _
          (append_entry run.entry_id run.now (earning platform delivery event user_id rule) s)
          (Ends-map _
            (append_entry run.entry_id run.now (earning platform delivery event user_id rule) s)
            (laws.appended run.entry_id run.now (earning platform delivery event user_id rule) s h)
            λ entry s' held. rw own (
              Ends-bind Q (update_delivery (has_id id) done)
                (λ d.
                  pure
                    (credited entry.transaction_id rule.points entry.balance_after entry.duplicate))
                s'
                (laws.paid done entry.transaction_id rule.points entry.balance_after entry.duplicate
                  s' (λ d. (refl, refl, refl)) (λ d. refl) held)
                λ d s'' settled. settled))

    credit_or_park-Ending :
        (event : ActivityEvent) (user_id : String) (rule : Option ResolvedRule) (s : Session)
        → H s.db
        → Ends Q (credit_or_park platform run delivery event user_id rule s)
    unfolding credit_or_park
    credit_or_park-Ending event user_id none s h = rw own (park-Ending _ _ s h)
    credit_or_park-Ending event user_id (some rule) s h = credit-Ending event user_id rule s h

    process_user-Ending :
        (event : ActivityEvent) (user : Option User) (s : Session)
        → H s.db
        → Ends Q (process_user platform run delivery event user s)
    unfolding process_user
    process_user-Ending event none s h = rw own (park-Ending _ _ s h)
    process_user-Ending event (some user) s h = credit_or_park-Ending event user.id _ s h

    choice :
        (test : Bool) (m n : Action ProcessOutcome) (s : Session)
        → Ends Q (m s)
        → Ends Q (n s)
        → Ends Q ((if test then m else n) s)
    choice true m n s hm hn = hm
    choice false m n s hm hn = hn

    too_far-Ending :
        (error : String) (s : Session) → H s.db → Ends Q (reject run.now delivery.id error s)
    too_far-Ending error s h = rw own (reject-Ending run.now error s h)

    stored-H :
        (change : WebhookDelivery → WebhookDelivery) (s : Session)
        → KeepsKeys change
        → H s.db
        → Ends (λ d s'. H s'.db) (update_delivery (has_id delivery.id) change s)
    stored-H change s kept h = rw own (laws.stored change s kept h)

    process_event-Ending :
        (event : ActivityEvent) (s : Session)
        → H s.db
        → Ends Q (process_event platform run delivery event s)
    unfolding process_event
    process_event-Ending event s h =
        let stored = λ (d : WebhookDelivery). record d {
          user_ref = some event.user_ref;
          activity_type = some event.activity_type;
        } in
        Ends-proceed Q _ (update_delivery (has_id delivery.id) stored s) (
          Ends-map _ (update_delivery (has_id delivery.id) stored s)
            (stored-H stored s (λ d. (refl, refl, refl)) h)
            λ d s' held.
              choice (ltb (platform.instant event.occurred_at + max_event_age_ms) run.now) _ _ s'
                (too_far-Ending _ s' held)
                (choice (ltb (run.now + max_event_future_ms) (platform.instant event.occurred_at)) _
                  _ s' (too_far-Ending _ s' held) (process_user-Ending event _ s' held)))

    process_valid-Ending :
        (payload : Json) (event : Option ActivityEvent) (s : Session)
        → H s.db
        → Ends Q (process_valid platform run delivery payload event s)
    unfolding process_valid
    process_valid-Ending payload none s h = rw own (reject-Ending run.now _ s h)
    process_valid-Ending payload (some event) s h =
        elim (Bool-cases (contains_nul platform (event_json event))) [
          | inl nul ↦ rw nul (rw own (reject-Ending run.now _ s h))
          | inr clean ↦ rw clean (process_event-Ending event s h)
        ]

    process_parsed-Ending :
        (payload : Option Json) (s : Session)
        → H s.db
        → Ends Q (process_parsed platform run delivery payload s)
    unfolding process_parsed
    process_parsed-Ending none s h = rw own (reject-Ending run.now _ s h)
    process_parsed-Ending (some payload) s h = process_valid-Ending payload _ s h

  pub process_delivery-Ending :
      (platform : Platform) (run : Run) (s : Session)
      → H s.db
      → Ends Q (process_delivery platform run id s)
  unfolding process_delivery process_found
  process_delivery-Ending platform run s h =
      elim (Option-cases (find? (has_id id) s.db.webhook_deliveries)) [
        | inl absent ↦ rw (absent, process_found) tt
        | inr (d, there) ↦
            let own : d.id ≡ id =
              (eq_iff d.id id).0 (find-holds (has_id id) s.db.webhook_deliveries d there) in
            rw (there, process_found) (process_parsed-Ending platform run d own _ s h)
      ]

-- Processing that ends leaves the row of the key settled as it reports.
pub process_delivery-Settles :
    (partner key id : String) (platform : Platform) (run : Run) (s : Session)
    → Held partner key id s.db
    → Ends
        (λ outcome s'. HeldAs partner key id (status_after outcome) s'.db)
        (process_delivery platform run id s)
process_delivery-Settles partner key id =
    process_delivery-Ending id (Held partner key id) (Held partner key id)
      (λ outcome. HeldAs partner key id (status_after outcome))
      (record {
        stored = update_delivery-Held partner key id;
        appended = append_entry-Held partner key id;
        paid = λ change transaction_id points balance_after already.
            update_delivery-HeldAs partner key id change processed;
        unpaid =
            λ change outcome. update_delivery-HeldAs partner key id change (status_after outcome);
      })
