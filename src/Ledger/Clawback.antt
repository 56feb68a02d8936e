-- ===== src/Ledger/Clawback.antt =====
-- When `reverseEntry` takes points back (packages/api/src/modules/ledger/ledger.service.ts).
use mini_rewards_integration.Prelude.{
  ℕ, [], String, true, ◌≡◌, refl, not, if◌then◌else◌, none, some, ◌∷◌, ◌==◌, ◌||◌, arith,
}
use mini_rewards_integration.Prelude.Int.{
  ◌+ℤ◌, negate, negate_parts, is_positive, is_negative, fits_int4,
}
use mini_rewards_integration.Database.Schema.{PointTransaction, Db}
use mini_rewards_integration.Database.Exec.{
  Result, ok, err, Session, proceed, pure, conclude, transaction,
}
use mini_rewards_integration.Database.Constraints.{sign_matches_type, entry_check, entry_keys}
use mini_rewards_integration.Ledger.{
  ReverseEntryResult, reversal_source, proposed, reversal_of, append_entry, reverse_entry,
}
use mini_rewards_integration.Ledger.Balances.{cached, has_row, is_user}
use mini_rewards_integration.Ledger.Append.{holder}
use mini_rewards_integration.Ledger.Reversal.{entry_of, reverse_entry-found}
use mini_rewards_integration.Ledger.Lands.{append_entry_lands, landing}

entry_check-reversal_of :
    (id : String) (now : ℕ) (original_id reason : String) (t : PointTransaction)
    → (is_positive t.delta || is_negative t.delta) ≡ true
    → fits_int4 (negate t.delta) ≡ true
    → entry_check (proposed id now (reversal_of original_id t reason)) ≡ none
unfolding entry_check sign_matches_type
entry_check-reversal_of id now original_id reason t moves fits =
    ground (arith, negate_parts t.delta)

-- A transaction whose last statement only shapes the result.
conclude-shaped :
    {A B : Type 0} (f : A → B) (db : Db) (r : Result A × Session) {a : A}
    → (conclude db r).0 ≡ ok a
    → conclude db (proceed (λ x. pure (f x)) r) ≡ (ok (f a), (conclude db r).1)
conclude-shaped f db (ok x, s) h = cc h
conclude-shaped f db (err e, s) h = cc

-- What a reversal that lands reports.
abbrev pub clawback : String → String → PointTransaction → String → Db → ReverseEntryResult
clawback id original_id t reason db = record {
  entry = landing id (reversal_of original_id t reason) db;
  reversed = true;
}

-- A clawback lands however little the user has left, also where the balance goes below zero: the
-- reversal of an entry that moved points, of a known user, with no reversal of it on record, whose row
-- meets the keys and the references of its table, and whose amount and new balance fit their columns,
-- throws nothing, reports that it reversed, and leaves the user the balance less the entry's delta.
-- It moves nobody else's, and adds the one row to the ledger.
pub reverse_entry_lands :
    (id : String) (now : ℕ) (original_id reason : String) (db : Db) (t : PointTransaction)
    → entry_of original_id db ≡ some t
    → (has_row t.user_id db || is_user t.user_id db) ≡ true
    → (is_positive t.delta || is_negative t.delta) ≡ true
    → fits_int4 (negate t.delta) ≡ true
    → entry_keys (proposed id now (reversal_of original_id t reason)) db ≡ none
    → holder reversal_source (some original_id) db ≡ none
    → fits_int4 (cached t.user_id db.user_balances +ℤ negate t.delta) ≡ true
    → let after = (transaction (reverse_entry id now original_id reason) db).1 in
      ((transaction (reverse_entry id now original_id reason) db).0
        ≡ ok (clawback id original_id t reason db))
      × ((v : String)
          → cached v after.user_balances ≡ (
              if t.user_id == v
              then cached v db.user_balances +ℤ negate t.delta
              else cached v db.user_balances))
      × (after.point_transactions
          ≡ proposed id now (reversal_of original_id t reason) ∷ db.point_transactions)
reverse_entry_lands id now original_id reason db t found known moves narrow keys first fits =
    let lands =
      append_entry_lands id now (reversal_of original_id t reason) db known
        (entry_check-reversal_of id now original_id reason t moves narrow) keys first refl fits in
    rw
      (
        reverse_entry-found id now original_id reason (record { db = db; locks = [] }) t found,
        conclude-shaped {B = ReverseEntryResult}
            (λ x. record { entry = x; reversed = not x.duplicate }) db
            (append_entry id now (reversal_of original_id t reason)
              (record { db = db; locks = [] }))
            lands.0,
      )
      (refl, lands.1, lands.2)
