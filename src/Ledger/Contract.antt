-- ===== src/Ledger/Contract.antt =====
-- What callers of `appendEntry` rely on (packages/api/src/modules/ledger/ledger.service.ts).
use mini_rewards_integration.Prelude.{
  ℕ, String, true, false, ◌≡◌, [], refl, subst, inl, inr, none, some, ◌∷◌, ◌==◌, ◌&&◌, ◌∙◌, arith,
  eq_refl, Bool-cases, or_default, if◌then◌else◌,
}
use mini_rewards_integration.Prelude.Int.{ℤ, ◌+ℤ◌, is_negative, abs}
use mini_rewards_integration.Database.Schema.{PointTransaction, Db}
use mini_rewards_integration.Database.Exec.{
  Violation, insufficient_points, database, Result, ok, err, Session, transaction,
}
use mini_rewards_integration.Database.Constraints.{entry_check}
use mini_rewards_integration.Database.Ends.{Ends, Ends-err, transaction-ok}
use mini_rewards_integration.Ledger.{
  AppendEntryInput, AppendEntryResult, proposed, overdraws, append_entry,
}
use mini_rewards_integration.Ledger.Balances.{
  cached, has_row, materialised, cached-update_where, cached-materialised,
}
use mini_rewards_integration.Ledger.Append.{
  locked, recorded, moved, holder, Appended, refused, duplicate, overdrawn, credited,
  ledger-materialised, append_entry-Appended, holder-none,
}
use mini_rewards_integration.Ledger.Reconciled.{has_row-materialised}

-- What one successful call did to the tables.
pub record Moves (transaction_id : String) (now : ℕ) (input : AppendEntryInput) (before : Db)
    (res : AppendEntryResult) (after : Db) : Type 0 where
  -- the user's cached balance is the one reported, and moved by the delta unless this is a repeat
  pub reported : cached input.user_id after.user_balances ≡ res.balance_after
  pub amount : res.balance_after ≡ (
      if res.duplicate
      then cached input.user_id before.user_balances
      else cached input.user_id before.user_balances +ℤ input.delta)
  -- nobody else's moved
  pub others :
      (v : String)
      → (input.user_id == v) ≡ false
      → cached v after.user_balances ≡ cached v before.user_balances
  -- the ledger is appended to, or left alone
  pub ledger : after.point_transactions ≡ (
      if res.duplicate
      then before.point_transactions
      else proposed transaction_id now input ∷ before.point_transactions)
  -- a new entry's id is the one it was given
  pub named : res.duplicate ≡ false → res.transaction_id ≡ transaction_id
  -- only a keyed call can be a repeat
  pub keyless : input.external_event_id ≡ none → res.duplicate ≡ false
  -- and only one whose event is on record
  pub unrecorded : holder input.source input.external_event_id before ≡ none → res.duplicate ≡ false
  -- the row meets the checks of its table
  pub fine : entry_check (proposed transaction_id now input) ≡ none
  -- a new entry is not an uncovered debit
  pub covered : res.duplicate ≡ false → overdraws input res.balance_after ≡ false
  -- no other table changed
  pub elsewhere :
      record after {
        user_balances = before.user_balances;
        point_transactions = before.point_transactions;
      }
      ≡ before

module _ (transaction_id : String) (now : ℕ) (input : AppendEntryInput) (s : Session) where
  -- Materialising a balance touches one table only.
  materialised_elsewhere :
      record (materialised now input.user_id s.db) {
        user_balances = s.db.user_balances;
        point_transactions = s.db.point_transactions;
      }
      ≡ s.db
  materialised_elsewhere = elim (Bool-cases (has_row input.user_id s.db)) [
    | inl old ↦ rw old
    | inr new ↦ rw new
  ]

  Moves-duplicate :
      (t : PointTransaction)
      → holder input.source input.external_event_id s.db ≡ some t
      → entry_check (proposed transaction_id now input) ≡ none
      → Moves transaction_id now input s.db
          (record {
            transaction_id = t.id;
            balance_after = cached input.user_id s.db.user_balances;
            duplicate = true;
          })
          (materialised now input.user_id s.db)
  Moves-duplicate t found check = record {
    reported = cached-materialised input.user_id input.user_id now s.db;
    amount = refl;
    others = λ v ne. cached-materialised v input.user_id now s.db;
    ledger = ledger-materialised now input.user_id s.db;
    named = λ h. cc;
    keyless = λ none_given. cc (found, holder-none input.source s.db.point_transactions);
    unrecorded = λ free. cc;
    fine = check;
    covered = λ h. cc;
    elsewhere = materialised_elsewhere;
  }

  Moves-credited :
      let x = cached input.user_id s.db.user_balances +ℤ input.delta in
      entry_check (proposed transaction_id now input) ≡ none
      → overdraws input x ≡ false
      → Moves transaction_id now input s.db
          (record { transaction_id = transaction_id; balance_after = x; duplicate = false })
          (moved now input.user_id x
            (recorded (proposed transaction_id now input) (locked now input.user_id s))).db
  Moves-credited check enough = record {
    reported =
        written input.user_id
        ∙ rw (has_row-materialised now input.user_id s.db, eq_refl input.user_id);
    amount = refl;
    others = λ v ne. written v ∙ rw ne (cached-materialised v input.user_id now s.db);
    ledger = rw ledger-materialised;
    named = λ h. refl;
    keyless = λ none_given. refl;
    unrecorded = λ free. refl;
    fine = check;
    covered = λ h. enough;
    elsewhere = materialised_elsewhere;
  }
    where
      written :
          (v : String)
          → cached v
              (moved now input.user_id
                (cached input.user_id s.db.user_balances +ℤ input.delta)
                (locked now input.user_id s)).db.user_balances
            ≡ (if (input.user_id == v)
                  && has_row input.user_id (materialised now input.user_id s.db)
                then cached input.user_id s.db.user_balances +ℤ input.delta
                else cached v (materialised now input.user_id s.db).user_balances)
      written v =
          cached-update_where v input.user_id now
            (cached input.user_id s.db.user_balances +ℤ input.delta)
            (materialised now input.user_id s.db).user_balances

  pub append_entry-Moves :
      Ends
        (λ res s'. Moves transaction_id now input s.db res s'.db)
        (append_entry transaction_id now input s)
  append_entry-Moves =
      settled (append_entry transaction_id now input s)
        (append_entry-Appended transaction_id now input s)
    where
      settled :
          (r : Result AppendEntryResult × Session)
          → Appended transaction_id now input s r
          → Ends (λ res s'. Moves transaction_id now input s.db res s'.db) r
      settled r (refused v e) =
          Ends-err (λ res s'. Moves transaction_id now input s.db res s'.db) r e
      settled r (overdrawn free over e) = rw e tt
      settled r (duplicate t found check e) = rw e (Moves-duplicate t found check)
      settled r (credited free check keys enough fits e) = rw e (Moves-credited check enough)

-- A committed call reports the user's new cached balance, which is the old one plus the delta, or
-- the old one for a repeat; it moves nobody else's, and it writes one row or, for a repeat, none.
pub append_entry_contract :
    (transaction_id : String) (now : ℕ) (input : AppendEntryInput) (db : Db)
    {res : AppendEntryResult} {after : Db}
    → transaction (append_entry transaction_id now input) db ≡ (ok res, after)
    → Moves transaction_id now input db res after
append_entry_contract transaction_id now input db =
    transaction-ok (Moves transaction_id now input db) (append_entry transaction_id now input) db
      (append_entry-Moves transaction_id now input (record { db = db; locks = [] }))

-- The floor: how an enforced debit or a credit may end, from the tables `db`.
abbrev Floor : Db → AppendEntryInput → Result AppendEntryResult × Session → Type 0
Floor db input (ok res, s) =
    is_negative input.delta ≡ true
    → or_default input.enforce_non_negative true ≡ true
    → res.duplicate ≡ false
    → is_negative res.balance_after ≡ false
Floor db input (err (insufficient_points u b need), s) =
    (u ≡ input.user_id)
    × (b ≡ cached input.user_id db.user_balances)
    × (need ≡ abs input.delta)
    × (or_default input.enforce_non_negative true ≡ true)
    × (is_negative input.delta ≡ true)
    × (is_negative (b +ℤ input.delta) ≡ true)
    × (holder input.source input.external_event_id db ≡ none)
Floor db input (err _, s) = Unit

Floor-database :
    (db : Db) (input : AppendEntryInput) (r : Result AppendEntryResult × Session) {v : Violation}
    → r.0 ≡ err (database v)
    → Floor db input r
Floor-database db input (ok res, s) e = cc
Floor-database db input (err (insufficient_points u b need), s) e = cc
Floor-database db input (err _, s) e = tt

append_entry-Floor :
    (transaction_id : String) (now : ℕ) (input : AppendEntryInput) (s : Session)
    → Floor s.db input (append_entry transaction_id now input s)
append_entry-Floor transaction_id now input s =
    settled (append_entry transaction_id now input s)
      (append_entry-Appended transaction_id now input s)
  where
    settled :
        (r : Result AppendEntryResult × Session)
        → Appended transaction_id now input s r
        → Floor s.db input r
    settled r (refused v e) = Floor-database s.db input r e
    settled r (duplicate t found check e) = rw e (λ debit enforced new. cc)
    settled r (overdrawn free over e) =
        rw e (refl, refl, refl, ground arith, ground arith, ground arith, free)
    settled r (credited free check keys enough fits e) = rw e (λ debit enforced new. ground arith)

-- A debit with the floor enforced that is newly written leaves a balance that is not below zero.
pub append_entry_floor :
    (transaction_id : String) (now : ℕ) (input : AppendEntryInput) (s s' : Session)
    {res : AppendEntryResult}
    → append_entry transaction_id now input s ≡ (ok res, s')
    → is_negative input.delta ≡ true
    → or_default input.enforce_non_negative true ≡ true
    → res.duplicate ≡ false
    → is_negative res.balance_after ≡ false
append_entry_floor transaction_id now input s s' done =
    subst (Floor s.db input) done (append_entry-Floor transaction_id now input s)

-- Where a call is refused for want of points, the error names the call's user, the balance that this
-- user had when the call began, and the amount asked for; the call was a debit with the floor enforced
-- which that balance does not cover, and no entry held its event. So neither a credit nor a repeat is
-- ever refused so.
pub append_entry_refuses :
    (transaction_id : String) (now : ℕ) (input : AppendEntryInput) (s s' : Session) {u : String}
    {b : ℤ} {need : ℕ}
    → append_entry transaction_id now input s ≡ (err (insufficient_points u b need), s')
    → (u ≡ input.user_id)
      × (b ≡ cached input.user_id s.db.user_balances)
      × (need ≡ abs input.delta)
      × (or_default input.enforce_non_negative true ≡ true)
      × (is_negative input.delta ≡ true)
      × (is_negative (b +ℤ input.delta) ≡ true)
      × (holder input.source input.external_event_id s.db ≡ none)
append_entry_refuses transaction_id now input s s' thrown =
    subst (Floor s.db input) thrown (append_entry-Floor transaction_id now input s)
