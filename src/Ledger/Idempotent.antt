-- ===== src/Ledger/Idempotent.antt =====
-- `appendEntry` called again with one event key
-- (packages/api/src/modules/ledger/ledger.service.ts).
use mini_rewards_integration.Prelude.{
  ℕ, String, true, ◌≡◌, [], refl, none, some, ◌==◌, ◌||◌, eq_refl, exists-update_where,
}
use mini_rewards_integration.Prelude.Int.{ℤ}
use mini_rewards_integration.Database.Schema.{PointTransaction, Db}
use mini_rewards_integration.Database.Exec.{Result, ok, Session, transaction}
use mini_rewards_integration.Database.Constraints.{entry_check}
use mini_rewards_integration.Database.Ends.{Ends, Ends-err, transaction-ok}
use mini_rewards_integration.Ledger.{
  AppendEntryInput, AppendEntryResult, proposed, append_entry, insert_entry,
}
use mini_rewards_integration.Ledger.Balances.{cached, has_row, is_user, lock_balance_lem}
use mini_rewards_integration.Ledger.Append.{
  locked, moved, holder, Appended, refused, duplicate, overdrawn, credited, ledger-materialised,
  append_entry-Appended, insert_entry-taken, settle_entry-duplicate,
}
use mini_rewards_integration.Ledger.Reconciled.{has_row-materialised}

-- The tables after a call hold the event's entry under the id that was reported, and the row of the
-- user's balance.
abbrev pub Holds : AppendEntryInput → AppendEntryResult → Db → Type 0
Holds input res db =
    (entry_check (proposed res.transaction_id 0 input) ≡ none)
    × (has_row input.user_id db ≡ true)
    × ((k : String)
        → input.external_event_id ≡ some k
        → (t : PointTransaction) × (holder input.source input.external_event_id db ≡ some t)
          × (t.id ≡ res.transaction_id))

pub has_row-moved :
    (now : ℕ) (u v : String) (x : ℤ) (s : Session) → has_row v (moved now u x s).db ≡ has_row v s.db
has_row-moved now u v x s =
    exists-update_where (λ b. b.user_id == v) (λ b. b.user_id == u)
      (λ b. record b { balance = x; updated_at = now }) s.db.user_balances (λ b. refl)

-- The checks see neither the id nor the date of a row.
entry_check-proposed :
    (id id' : String) (now now' : ℕ) (input : AppendEntryInput)
    → entry_check (proposed id now input) ≡ none
    → entry_check (proposed id' now' input) ≡ none
unfolding entry_check
entry_check-proposed id id' now now' input h = h

append_entry-Holds :
    (transaction_id : String) (now : ℕ) (input : AppendEntryInput) (s : Session)
    → Ends (λ res s'. Holds input res s'.db) (append_entry transaction_id now input s)
append_entry-Holds transaction_id now input s =
    settled (append_entry transaction_id now input s)
      (append_entry-Appended transaction_id now input s)
  where
    settled :
        (r : Result AppendEntryResult × Session)
        → Appended transaction_id now input s r
        → Ends (λ res s'. Holds input res s'.db) r
    settled r (refused v e) = Ends-err (λ res s'. Holds input res s'.db) r e
    settled r (overdrawn free over e) = rw e tt
    settled r (duplicate t found check e) = rw e (
      entry_check-proposed transaction_id _ now 0 input check,
      has_row-materialised now input.user_id s.db,
      λ k keyed. (t, rw ledger-materialised found, refl),
    )
    settled r (credited free check keys enough fits e) = rw e (
      entry_check-proposed transaction_id _ now 0 input check,
      rw has_row-moved (has_row-materialised now input.user_id s.db),
      λ k keyed.
          (proposed transaction_id now input, rw (keyed, eq_refl input.source, eq_refl k), refl),
    )

-- A call for a known user whose event is on record is a repeat, whatever the balance.
append_entry-repeat :
    (transaction_id : String) (now : ℕ) (input : AppendEntryInput) (s : Session)
    (t : PointTransaction)
    → has_row input.user_id s.db || is_user input.user_id s.db ≡ true
    → entry_check (proposed transaction_id now input) ≡ none
    → holder input.source input.external_event_id s.db ≡ some t
    → append_entry transaction_id now input s ≡ (
      ok (record {
        transaction_id = t.id;
        balance_after = cached input.user_id s.db.user_balances;
        duplicate = true;
      }),
      locked now input.user_id s,
    )
unfolding append_entry
append_entry-repeat transaction_id now input s t known fine found =
    let here = locked now input.user_id s in
    let row = proposed transaction_id now input in
    let claimed : insert_entry row here ≡ (ok none, here) =
      insert_entry-taken row here t fine (rw ledger-materialised found) in
    rw lock_balance_lem (
      rw known
        (rw claimed (settle_entry-duplicate now input _ here t (rw ledger-materialised found))))

-- A call whose event's entry is on record, with the row of the user's balance, is a repeat of it.
pub once_held :
    (id' : String) (now' : ℕ) (input : AppendEntryInput) (k : String) (res : AppendEntryResult)
    (db : Db)
    → input.external_event_id ≡ some k
    → Holds input res db
    → transaction (append_entry id' now' input) db ≡ (
      ok (record {
        transaction_id = res.transaction_id;
        balance_after = cached input.user_id db.user_balances;
        duplicate = true;
      }),
      db,
    )
once_held id' now' input k res db keyed (check, known, kept) =
    let (t, found, same) = kept k keyed in
    let again =
      append_entry-repeat id' now' input (record { db = db; locks = [] }) t (rw known)
        (entry_check-proposed _ id' 0 now' input check) found in
    rw again (rw (known, same))

-- What a committed call leaves in the tables.
pub committed-Holds :
    (id : String) (now : ℕ) (input : AppendEntryInput) (db : Db) {res : AppendEntryResult}
    {after : Db}
    → transaction (append_entry id now input) db ≡ (ok res, after)
    → Holds input res after
committed-Holds id now input db =
    transaction-ok (Holds input) (append_entry id now input) db
      (append_entry-Holds id now input (record { db = db; locks = [] }))
