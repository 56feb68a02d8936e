-- ===== src/Ledger/Caught.antt =====
-- What a caller finds that catches `InsufficientPointsError` and keeps its transaction open
-- (packages/api/src/modules/ledger/ledger.service.ts).
use mini_rewards_integration.Prelude.{ℕ, String, true, ◌≡◌, ◌∷◌, refl, arith, eq_refl}
use mini_rewards_integration.Prelude.Int.{ℤ, is_negative, +ℤ_parts}
use mini_rewards_integration.Database.Exec.{insufficient_points, err, Session}
use mini_rewards_integration.Ledger.{AppendEntryInput, proposed, append_entry}
use mini_rewards_integration.Ledger.Balances.{cached, cached-materialised, ledger_sum, IsReconciled}
use mini_rewards_integration.Ledger.Append.{
  locked, recorded, Appended, refused, duplicate, overdrawn, credited, ledger-materialised,
  append_entry-Appended,
}
use mini_rewards_integration.Ledger.Reconciled.{IsReconciled-materialised}

-- A debit without its movement.
unbalanced :
    (id : String) (now : ℕ) (input : AppendEntryInput) (s : Session)
    → is_negative input.delta ≡ true
    → IsReconciled s.db
    → ¬ IsReconciled (recorded (proposed id now input) s).db
unfolding ledger_sum
unbalanced id now input s debit h claim =
    let sum = ledger_sum input.user_id s.db.point_transactions in
    ground
      (arith, claim input.user_id, h input.user_id, eq_refl input.user_id, +ℤ_parts input.delta sum)

-- A call that throws `InsufficientPointsError` has written its row and left every balance as it was: if
-- the books balanced when the call began, they do not for a caller that goes on after the throw.
pub caught_overdraft_unbalanced :
    (id : String) (now : ℕ) (input : AppendEntryInput) (s s' : Session) {u : String} {b : ℤ}
    {need : ℕ}
    → IsReconciled s.db
    → append_entry id now input s ≡ (err (insufficient_points u b need), s')
    → (s'.db.point_transactions ≡ proposed id now input ∷ s.db.point_transactions)
      × ((v : String) → cached v s'.db.user_balances ≡ cached v s.db.user_balances)
      × (¬ IsReconciled s'.db)
caught_overdraft_unbalanced id now input s s' {u} {b} {need} h thrown =
    settled (append_entry-Appended id now input s)
  where
    settled :
        Appended id now input s (append_entry id now input s)
        → (s'.db.point_transactions ≡ proposed id now input ∷ s.db.point_transactions)
          × ((v : String) → cached v s'.db.user_balances ≡ cached v s.db.user_balances)
          × (¬ IsReconciled s'.db)
    settled (refused v e) = cc
    settled (duplicate t found check e) = cc
    settled (credited free check keys enough fits e) = cc
    settled (overdrawn free over e) =
        let same : s' ≡ recorded (proposed id now input) (locked now input.user_id s) = cc in
        rw same (
          rw ledger-materialised refl,
          λ v. cached-materialised v input.user_id now s.db,
          unbalanced id now input (locked now input.user_id s) (ground arith)
              (IsReconciled-materialised now input.user_id s.db h),
        )
