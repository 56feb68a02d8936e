-- ===== src/Ledger/Reconciled.antt =====
-- The ledger's writes and the cached balances (packages/api/src/modules/ledger/ledger.service.ts).
use mini_rewards_integration.Prelude.{
  ℕ, String, true, ◌≡◌, sym, ap, inl, inr, ◌==◌, ◌∙◌, arith, eq_iff, eq_refl, Bool-cases,
  Option-cases, find?,
}
use mini_rewards_integration.Prelude.Int.{ℤ, ◌+ℤ◌, +ℤ_comm}
use mini_rewards_integration.Database.Schema.{PointTransaction, Db}
use mini_rewards_integration.Database.Exec.{Result, Session, transaction}
use mini_rewards_integration.Database.Ends.{Ends, Ends-err, Ends-proceed, transaction-keeps}
use mini_rewards_integration.Ledger.{
  AppendEntryInput, AppendEntryResult, proposed, append_entry, reverse_entry, reversal_of,
  entry_or_missing,
}
use mini_rewards_integration.Ledger.Balances.{
  cached, ledger_sum, IsReconciled, has_row, materialised, cached-update_where, cached-materialised,
}
use mini_rewards_integration.Ledger.Append.{
  locked, recorded, moved, Appended, refused, duplicate, overdrawn, credited, ledger-materialised,
  append_entry-Appended,
}

pub has_row-materialised :
    (now : ℕ) (u : String) (db : Db) → has_row u (materialised now u db) ≡ true
has_row-materialised now u db = elim (Bool-cases (has_row u db)) [
  | inl old ↦ rw (old, old)
  | inr new ↦ rw (new, eq_refl u)
]

pub IsReconciled-materialised :
    (now : ℕ) (u : String) (db : Db) → IsReconciled db → IsReconciled (materialised now u db)
IsReconciled-materialised now u db h v =
    cached-materialised v u now db ∙ (h v ∙ sym (rw ledger-materialised))

-- A row and its balance, written together.
pub IsReconciled-moved :
    (now : ℕ) (row : PointTransaction) (x : ℤ) (s : Session)
    → has_row row.user_id s.db ≡ true
    → x ≡ cached row.user_id s.db.user_balances +ℤ row.delta
    → IsReconciled s.db
    → IsReconciled (moved now row.user_id x (recorded row s)).db
unfolding ledger_sum
IsReconciled-moved now row x s known sum h v =
    cached-update_where v row.user_id now x s.db.user_balances
    ∙ ground (
      arith,
      known,
      sum,
      eq_iff row.user_id v,
      h v,
      h row.user_id,
      +ℤ_comm row.delta (ledger_sum v s.db.point_transactions),
    )

pub append_entry-Ends :
    (transaction_id : String) (now : ℕ) (input : AppendEntryInput) (s : Session)
    → IsReconciled s.db
    → Ends (λ res s'. IsReconciled s'.db) (append_entry transaction_id now input s)
append_entry-Ends transaction_id now input s h =
    settled (append_entry transaction_id now input s)
      (append_entry-Appended transaction_id now input s)
  where
    settled :
        (r : Result AppendEntryResult × Session)
        → Appended transaction_id now input s r
        → Ends (λ res s'. IsReconciled s'.db) r
    settled r (refused v e) = Ends-err (λ res s'. IsReconciled s'.db) r e
    settled r (duplicate t found check e) =
        rw e (IsReconciled-materialised now input.user_id s.db h)
    settled r (overdrawn free over e) = rw e tt
    settled r (credited free check keys enough fits e) = rw e (
        IsReconciled-moved now (proposed transaction_id now input) _ (locked now input.user_id s)
          (has_row-materialised now input.user_id s.db)
          (ap (λ b. b +ℤ input.delta)
            (sym (cached-materialised input.user_id input.user_id now s.db)))
          (IsReconciled-materialised now input.user_id s.db h))

-- However a transaction around `appendEntry` ends, every cached balance is still its ledger's sum.
pub append_entry-IsReconciled :
    (transaction_id : String) (now : ℕ) (input : AppendEntryInput) (db : Db)
    → IsReconciled db
    → IsReconciled (transaction (append_entry transaction_id now input) db).1
append_entry-IsReconciled transaction_id now input db h =
    transaction-keeps IsReconciled (append_entry transaction_id now input) db h
      (append_entry-Ends transaction_id now input _ h)

pub reverse_entry-Ends :
    (transaction_id : String) (now : ℕ) (original_id reason : String) (s : Session)
    → IsReconciled s.db
    → Ends (λ res s'. IsReconciled s'.db) (reverse_entry transaction_id now original_id reason s)
unfolding reverse_entry entry_or_missing
reverse_entry-Ends transaction_id now original_id reason s h =
    elim (Option-cases (find? (λ t. t.id == original_id) s.db.point_transactions)) [
      | inl absent ↦ rw (absent, entry_or_missing) tt
      | inr (t, found) ↦
          rw (found, entry_or_missing)
            (Ends-proceed (λ res s'. IsReconciled s'.db) _
              (append_entry transaction_id now (reversal_of original_id t reason) s)
              (append_entry-Ends transaction_id now (reversal_of original_id t reason) s h))
    ]

-- A reversal keeps the books too, whether it lands, repeats an earlier one, or finds no entry.
reverse_entry-IsReconciled :
    (transaction_id : String) (now : ℕ) (original_id reason : String) (db : Db)
    → IsReconciled db
    → IsReconciled (transaction (reverse_entry transaction_id now original_id reason) db).1
reverse_entry-IsReconciled transaction_id now original_id reason db h =
    transaction-keeps IsReconciled (reverse_entry transaction_id now original_id reason) db h
      (reverse_entry-Ends transaction_id now original_id reason _ h)
