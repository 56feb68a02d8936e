-- ===== src/Ledger/Unique.antt =====
-- The events of the ledger's entries (packages/api/src/modules/ledger/ledger.service.ts).
use mini_rewards_integration.Prelude.{
  ℕ, String, false, ◌≡◌, List, [], ◌∷◌, inl, inr, exists, not_exists-find, Option-cases,
}
use mini_rewards_integration.Database.Schema.{PointTransaction, Db}
use mini_rewards_integration.Database.Exec.{Result, Session, transaction}
use mini_rewards_integration.Database.Ends.{Ends, Ends-err, Ends-proceed, transaction-keeps}
use mini_rewards_integration.Database.Constraints.{same_event}
use mini_rewards_integration.Ledger.{
  AppendEntryInput, AppendEntryResult, append_entry, reverse_entry, reversal_of, entry_or_missing,
}
use mini_rewards_integration.Ledger.Reversal.{entry_of}
use mini_rewards_integration.Ledger.Append.{
  Appended, refused, duplicate, overdrawn, credited, ledger-materialised, append_entry-Appended,
}

-- No two entries of the ledger are about one event of one source.
abbrev pub HasUniqueEvents : List PointTransaction → Type 0
HasUniqueEvents [] = Unit
HasUniqueEvents (t ∷ ts) =
    (exists (same_event t.source t.external_event_id) ts ≡ false) × HasUniqueEvents ts

pub append_entry-Unique :
    (transaction_id : String) (now : ℕ) (input : AppendEntryInput) (s : Session)
    → HasUniqueEvents s.db.point_transactions
    → Ends
        (λ res s'. HasUniqueEvents s'.db.point_transactions)
        (append_entry transaction_id now input s)
append_entry-Unique transaction_id now input s h =
    settled (append_entry transaction_id now input s)
      (append_entry-Appended transaction_id now input s)
  where
    settled :
        (r : Result AppendEntryResult × Session)
        → Appended transaction_id now input s r
        → Ends (λ res s'. HasUniqueEvents s'.db.point_transactions) r
    settled r (refused v e) = Ends-err (λ res s'. HasUniqueEvents s'.db.point_transactions) r e
    settled r (duplicate t found check e) = rw e (rw (ledger-materialised now input.user_id s.db) h)
    settled r (overdrawn free over e) = rw e tt
    settled r (credited free check keys enough fits e) = rw e (
        rw (ledger-materialised now input.user_id s.db) (
          not_exists-find (same_event input.source input.external_event_id) s.db.point_transactions
              free,
          h,
        ))

pub reverse_entry-Unique :
    (transaction_id : String) (now : ℕ) (original_id reason : String) (s : Session)
    → HasUniqueEvents s.db.point_transactions
    → Ends
        (λ res s'. HasUniqueEvents s'.db.point_transactions)
        (reverse_entry transaction_id now original_id reason s)
unfolding reverse_entry entry_or_missing
reverse_entry-Unique transaction_id now original_id reason s h =
    elim (Option-cases (entry_of original_id s.db)) [
      | inl absent ↦ rw (absent, entry_or_missing) tt
      | inr (t, found) ↦
          rw (found, entry_or_missing)
            (Ends-proceed (λ res s'. HasUniqueEvents s'.db.point_transactions) _
              (append_entry transaction_id now (reversal_of original_id t reason) s)
              (append_entry-Unique transaction_id now (reversal_of original_id t reason) s h))
    ]

-- Whatever entry is appended, and however its transaction ends, no two entries of the ledger are about
-- one event of one source.
append_entry-HasUniqueEvents :
    (transaction_id : String) (now : ℕ) (input : AppendEntryInput) (db : Db)
    → HasUniqueEvents db.point_transactions
    → HasUniqueEvents (transaction (append_entry transaction_id now input) db).1.point_transactions
append_entry-HasUniqueEvents transaction_id now input db h =
    transaction-keeps (λ d. HasUniqueEvents d.point_transactions)
      (append_entry transaction_id now input) db h
      (append_entry-Unique transaction_id now input _ h)

-- A reversal keeps that too: since its event is the entry that it undoes, an entry is reversed at most
-- once.
reverse_entry-HasUniqueEvents :
    (transaction_id : String) (now : ℕ) (original_id reason : String) (db : Db)
    → HasUniqueEvents db.point_transactions
    → HasUniqueEvents
        (transaction (reverse_entry transaction_id now original_id reason) db).1.point_transactions
reverse_entry-HasUniqueEvents transaction_id now original_id reason db h =
    transaction-keeps (λ d. HasUniqueEvents d.point_transactions)
      (reverse_entry transaction_id now original_id reason) db h
      (reverse_entry-Unique transaction_id now original_id reason _ h)
