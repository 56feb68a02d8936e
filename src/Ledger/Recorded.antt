-- ===== src/Ledger/Recorded.antt =====
-- An event on record stays on record (packages/api/src/modules/ledger/ledger.service.ts).
use mini_rewards_integration.Prelude.{
  ℕ, String, true, false, ◌≡◌, inl, inr, Option, none, some, ◌==◌, ◌&&◌, unique_eq, arith, eq_iff,
  Bool-cases, Option-cases, ◌∙◌,
}
use mini_rewards_integration.Database.Schema.{PointTransaction, Db}
use mini_rewards_integration.Database.Exec.{Result, Session}
use mini_rewards_integration.Database.Constraints.{same_event}
use mini_rewards_integration.Database.Ends.{Ends, Ends-err, Ends-proceed}
use mini_rewards_integration.Ledger.{
  AppendEntryInput, AppendEntryResult, proposed, append_entry, reversal_of, reverse_entry,
  entry_or_missing,
}
use mini_rewards_integration.Ledger.Balances.{has_row, materialised}
use mini_rewards_integration.Ledger.Append.{
  locked, holder, Appended, refused, duplicate, overdrawn, credited, ledger-materialised,
  append_entry-Appended,
}
use mini_rewards_integration.Ledger.Idempotent.{has_row-moved}
use mini_rewards_integration.Ledger.Reversal.{entry_of}
use mini_rewards_integration.Ledger.Invariant.{IsLedgerInvariant, lock_balance-Keeps}

event_eq :
    (source k other : String) (event : Option String)
    → (other == source && unique_eq event (some k)) ≡ true
    → (other ≡ source) × (event ≡ some k)
event_eq source k other none h = ground arith
event_eq source k other (some e) h =
    (ground (arith, eq_iff other source), ground (arith, eq_iff e k))

module _ (source k : String) (t : PointTransaction) (u : String) where
  -- The event's entry is `t`, and the user's balance has its row.
  abbrev pub Recorded : Db → Type 0
  Recorded db = (holder source (some k) db ≡ some t) × (has_row u db ≡ true)

  -- A row that is written is about another event.
  holder-other :
      (row : PointTransaction) (db : Db)
      → holder row.source row.external_event_id db ≡ none
      → holder source (some k) db ≡ some t
      → same_event source (some k) row ≡ false
  holder-other row db free found = elim (Bool-cases (same_event source (some k) row)) [
    | inr other ↦ other
    | inl same ↦ let (from, event) = event_eq source k row.source row.external_event_id same in cc
  ]

  has_row-materialised_other :
      (now : ℕ) (v : String) (db : Db)
      → has_row u db ≡ true
      → has_row u (materialised now v db) ≡ true
  has_row-materialised_other now v db h = ground arith

  append_entry-Recorded :
      (id : String) (now : ℕ) (input : AppendEntryInput) (s : Session)
      → Recorded s.db
      → Ends (λ res s'. Recorded s'.db) (append_entry id now input s)
  append_entry-Recorded id now input s h =
      settled (append_entry id now input s) (append_entry-Appended id now input s)
    where
      settled :
          (r : Result AppendEntryResult × Session)
          → Appended id now input s r
          → Ends (λ res s'. Recorded s'.db) r
      settled r (refused v e) = Ends-err (λ res s'. Recorded s'.db) r e
      settled r (overdrawn free over e) = rw e tt
      settled r (duplicate x found check e) =
          rw e (rw ledger-materialised h.0, has_row-materialised_other now input.user_id s.db h.1)
      settled r (credited free check keys enough fits e) = rw e (
        rw (holder-other (proposed id now input) s.db free h.0, ledger-materialised) h.0,
        has_row-moved now input.user_id u _ (locked now input.user_id s)
            ∙ has_row-materialised_other now input.user_id s.db h.1,
      )

  reverse_entry-Recorded :
      (id : String) (now : ℕ) (original_id reason : String) (s : Session)
      → Recorded s.db
      → Ends (λ res s'. Recorded s'.db) (reverse_entry id now original_id reason s)
  unfolding reverse_entry entry_or_missing
  reverse_entry-Recorded id now original_id reason s h =
      elim (Option-cases (entry_of original_id s.db)) [
        | inl absent ↦ rw (absent, entry_or_missing) tt
        | inr (x, found) ↦
            rw (found, entry_or_missing)
              (Ends-proceed (λ res s'. Recorded s'.db) _
                (append_entry id now (reversal_of original_id x reason) s)
                (append_entry-Recorded id now (reversal_of original_id x reason) s h))
      ]

  -- No operation of the ledger takes an entry off the record.
  pub Recorded-IsLedgerInvariant : IsLedgerInvariant Recorded
  Recorded-IsLedgerInvariant = record {
    locks = λ now v.
        lock_balance-Keeps Recorded now v
          λ db h. (rw ledger-materialised h.0, has_row-materialised_other now v db h.1);
    appends = λ id now input. record { at = append_entry-Recorded id now input };
    reverses = λ id now original_id reason. record {
      at = reverse_entry-Recorded id now original_id reason;
    };
    apart = λ db other entries balances h. rw (entries, balances) h;
  }
