-- ===== src/Ledger/Lands.antt =====
-- When `appendEntry` writes its entry (packages/api/src/modules/ledger/ledger.service.ts).
use mini_rewards_integration.Prelude.{
  ℕ, String, some, [], ◌∷◌, ◌==◌, true, false, ◌≡◌, refl, ap, subst, inl, inr, eq_iff, Bool-cases,
  if◌then◌else◌, none, ◌||◌, not_exists-find, exists, arith,
}
use mini_rewards_integration.Prelude.Int.{◌+ℤ◌, fits_int4}
use mini_rewards_integration.Database.Schema.{PointTransaction, Db}
use mini_rewards_integration.Database.Exec.{ok, Session, transaction}
use mini_rewards_integration.Database.Constraints.{entry_check, entry_keys, same_event}
use mini_rewards_integration.Ledger.{
  AppendEntryInput, AppendEntryResult, proposed, overdraws, insert_entry, append_entry,
}
use mini_rewards_integration.Ledger.Balances.{cached, has_row, is_user, lock_balance_lem}
use mini_rewards_integration.Ledger.Contract.{Moves, append_entry_contract}
use mini_rewards_integration.Ledger.Append.{
  holder, locked, recorded, settle_entry-new, ledger-materialised, entry_keys-materialised,
}

insert_entry-free :
    (row : PointTransaction) (s : Session)
    → entry_check row ≡ none
    → entry_keys row s.db ≡ none
    → exists (same_event row.source row.external_event_id) s.db.point_transactions ≡ false
    → insert_entry row s ≡ (ok (some row.id), recorded row s)
unfolding insert_entry
insert_entry-free row s check keys free = ground arith

insert_entry-locked :
    (id : String) (now : ℕ) (input : AppendEntryInput) (s : Session)
    → entry_check (proposed id now input) ≡ none
    → entry_keys (proposed id now input) s.db ≡ none
    → holder input.source input.external_event_id s.db ≡ none
    → insert_entry (proposed id now input) (locked now input.user_id s)
      ≡ (ok (some id), recorded (proposed id now input) (locked now input.user_id s))
insert_entry-locked id now input s check keys free =
    let row = proposed id now input in
    insert_entry-free row (locked now input.user_id s) check (rw entry_keys-materialised keys) (
      rw ledger-materialised (
        not_exists-find (same_event input.source input.external_event_id) s.db.point_transactions
          free))

landed :
    (id : String) (now : ℕ) (input : AppendEntryInput) (db : Db)
    → (has_row input.user_id db || is_user input.user_id db) ≡ true
    → entry_check (proposed id now input) ≡ none
    → entry_keys (proposed id now input) db ≡ none
    → holder input.source input.external_event_id db ≡ none
    → overdraws input (cached input.user_id db.user_balances +ℤ input.delta) ≡ false
    → fits_int4 (cached input.user_id db.user_balances +ℤ input.delta) ≡ true
    → (transaction (append_entry id now input) db).0
      ≡ ok (record {
        transaction_id = id;
        balance_after = cached input.user_id db.user_balances +ℤ input.delta;
        duplicate = false;
      })
unfolding append_entry
landed id now input db known check keys free covered fits = rw lock_balance_lem (
    rw known (
      rw (insert_entry-locked id now input (record { db = db; locks = [] }) check keys free)
        (rw settle_entry-new (rw (covered, fits) refl))))

-- What a call that lands reports.
abbrev pub landing : String → AppendEntryInput → Db → AppendEntryResult
landing id input db = record {
  transaction_id = id;
  balance_after = cached input.user_id db.user_balances +ℤ input.delta;
  duplicate = false;
}

pair_eq : {A B : Type 0} {p : A × B} {a : A} → p.0 ≡ a → p ≡ (a, p.1)
pair_eq {A} {B} {p} e = ap (λ x. (x, p.1)) e

-- An entry for a known user lands when its row meets the checks, the keys and the references of its
-- table, no entry holds its event, and the new balance is covered and fits its column: the call throws
-- nothing and reports no repeat, the user's cached balance is from then on the old one plus the delta,
-- nobody else's moves, and the ledger is the old one with this row.
pub append_entry_lands :
    (id : String) (now : ℕ) (input : AppendEntryInput) (db : Db)
    → (has_row input.user_id db || is_user input.user_id db) ≡ true
    → entry_check (proposed id now input) ≡ none
    → entry_keys (proposed id now input) db ≡ none
    → holder input.source input.external_event_id db ≡ none
    → overdraws input (cached input.user_id db.user_balances +ℤ input.delta) ≡ false
    → fits_int4 (cached input.user_id db.user_balances +ℤ input.delta) ≡ true
    → let after = (transaction (append_entry id now input) db).1 in
      ((transaction (append_entry id now input) db).0 ≡ ok (landing id input db))
      × ((v : String)
          → cached v after.user_balances ≡ (
              if input.user_id == v
              then cached v db.user_balances +ℤ input.delta
              else cached v db.user_balances))
      × (after.point_transactions ≡ proposed id now input ∷ db.point_transactions)
append_entry_lands id now input db known check keys free covered fits =
    let done = landed id now input db known check keys free covered fits in
    let m = append_entry_contract id now input db (pair_eq done) in (done, all_balances m, m.ledger)
  where
    all_balances :
        {after : Db}
        → Moves id now input db (landing id input db) after
        → (v : String)
        → cached v after.user_balances ≡ (
            if input.user_id == v
            then cached v db.user_balances +ℤ input.delta
            else cached v db.user_balances)
    all_balances {after} m v = elim (Bool-cases (input.user_id == v)) [
      | inr other ↦ rw other (m.others v other)
      | inl own ↦ rw own (
          subst (λ w. cached w after.user_balances ≡ cached w db.user_balances +ℤ input.delta)
            ((eq_iff input.user_id v).0 own) m.reported)
    ]
