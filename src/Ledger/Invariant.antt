-- ===== src/Ledger/Invariant.antt =====
-- Properties of the tables that the ledger's operations keep, as the services that move points through
-- them need them (packages/api/src/modules/ledger/ledger.service.ts).
use mini_rewards_integration.Prelude.{ℕ, String, ◌≡◌, inl, inr, ◌||◌, Bool-cases}
use mini_rewards_integration.Database.Schema.{Db}
use mini_rewards_integration.Database.Keeps.{Keeps}
use mini_rewards_integration.Ledger.{AppendEntryInput, lock_balance, append_entry, reverse_entry}
use mini_rewards_integration.Ledger.Balances.{
  IsReconciled, materialised, lock_balance_lem, has_row, is_user,
}
use mini_rewards_integration.Ledger.Append.{ledger-materialised}
use mini_rewards_integration.Ledger.Reconciled.{
  IsReconciled-materialised, append_entry-Ends, reverse_entry-Ends,
}
use mini_rewards_integration.Ledger.Unique.{
  HasUniqueEvents, append_entry-Unique, reverse_entry-Unique,
}

pub record IsLedgerInvariant (P : Db → Type 0) : Type 0 where
  pub locks : (now : ℕ) (u : String) → Keeps P (lock_balance now u)
  pub appends :
      (id : String) (now : ℕ) (input : AppendEntryInput) → Keeps P (append_entry id now input)
  pub reverses :
      (id : String) (now : ℕ) (original_id reason : String)
      → Keeps P (reverse_entry id now original_id reason)
  -- It is about the two tables of the ledger alone.
  pub apart :
      (db other : Db)
      → other.point_transactions ≡ db.point_transactions
      → other.user_balances ≡ db.user_balances
      → P db
      → P other

pub lock_balance-Keeps :
    (P : Db → Type 0) (now : ℕ) (u : String)
    → ((db : Db) → P db → P (materialised now u db))
    → Keeps P (lock_balance now u)
lock_balance-Keeps P now u step = record {
  at = λ s h. rw lock_balance_lem (elim (Bool-cases (has_row u s.db || is_user u s.db)) [
    | inl known ↦ rw known (step s.db h)
    | inr unknown ↦ rw unknown tt
  ]);
}

pub IsReconciled-IsLedgerInvariant : IsLedgerInvariant IsReconciled
IsReconciled-IsLedgerInvariant = record {
  locks = λ now u. lock_balance-Keeps IsReconciled now u (IsReconciled-materialised now u);
  appends = λ id now input. record { at = append_entry-Ends id now input };
  reverses =
      λ id now original_id reason. record { at = reverse_entry-Ends id now original_id reason };
  apart = λ db other entries balances h u. rw (entries, balances) (h u);
}

abbrev pub UniqueEvents : Db → Type 0
UniqueEvents db = HasUniqueEvents db.point_transactions

pub UniqueEvents-IsLedgerInvariant : IsLedgerInvariant UniqueEvents
UniqueEvents-IsLedgerInvariant = record {
  locks =
      λ now u. lock_balance-Keeps UniqueEvents now u (λ db h. rw (ledger-materialised now u db) h);
  appends = λ id now input. record { at = append_entry-Unique id now input };
  reverses =
      λ id now original_id reason. record { at = reverse_entry-Unique id now original_id reason };
  apart = λ db other entries balances h. rw entries h;
}
