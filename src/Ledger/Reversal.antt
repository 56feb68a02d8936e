-- ===== src/Ledger/Reversal.antt =====
-- `reverseEntry` of packages/api/src/modules/ledger/ledger.service.ts, beside the entry that it mirrors.
use mini_rewards_integration.Prelude.{
  ℕ, String, true, false, not, ◌≡◌, ◌≢◌, [], refl, subst, inl, inr, Option, some, ◌==◌, ◌∙◌, arith,
  eq_iff, eq_refl, Bool-cases, Option-cases, find?,
}
use mini_rewards_integration.Prelude.Int.{ℤ, +ℤ_negate}
use mini_rewards_integration.Database.Schema.{PointTransaction, Db}
use mini_rewards_integration.Database.Exec.{
  insufficient_points, Result, ok, err, Session, proceed, pure, transaction,
}
use mini_rewards_integration.Database.Ends.{Ends, Ends-map, Ends-proceed, transaction-ok}
use mini_rewards_integration.Ledger.{
  AppendEntryInput, AppendEntryResult, ReverseEntryResult, proposed, append_entry, reversal_of,
  entry_or_missing, reverse_entry,
}
use mini_rewards_integration.Ledger.Balances.{cached}
use mini_rewards_integration.Ledger.Contract.{Moves, append_entry-Moves, append_entry_contract}
use mini_rewards_integration.Ledger.Append.{
  Appended, refused, duplicate, overdrawn, credited, append_entry-Appended,
}

-- The entry of an id.
abbrev pub entry_of : String → Db → Option PointTransaction
entry_of id db = find? (λ t. t.id == id) db.point_transactions

-- What one successful reversal did to the tables.
pub record Reverses (id : String) (now : ℕ) (original_id reason : String) (before : Db)
    (rev : ReverseEntryResult) (after : Db) : Type 0 where
  pub original : PointTransaction
  pub found : entry_of original_id before ≡ some original
  pub moves : Moves id now (reversal_of original_id original reason) before rev.entry after
  pub flag : rev.reversed ≡ not rev.entry.duplicate

pub reverse_entry-found :
    (id : String) (now : ℕ) (original_id reason : String) (s : Session) (t : PointTransaction)
    → entry_of original_id s.db ≡ some t
    → reverse_entry id now original_id reason s
      ≡ proceed
          (λ result. pure (record { entry = result; reversed = not result.duplicate }))
          (append_entry id now (reversal_of original_id t reason) s)
unfolding reverse_entry entry_or_missing
reverse_entry-found id now original_id reason s t found = rw (found, entry_or_missing)

pub reverse_entry-Reverses :
    (id : String) (now : ℕ) (original_id reason : String) (s : Session)
    → Ends
        (λ rev s'. Reverses id now original_id reason s.db rev s'.db)
        (reverse_entry id now original_id reason s)
unfolding reverse_entry entry_or_missing
reverse_entry-Reverses id now original_id reason s =
    elim (Option-cases (entry_of original_id s.db)) [
      | inl absent ↦ rw (absent, entry_or_missing) tt
      | inr (t, found) ↦
          let done = append_entry-Moves id now (reversal_of original_id t reason) s in
          rw (found, entry_or_missing)
            (Ends-proceed (λ rev s'. Reverses id now original_id reason s.db rev s'.db) _
              (append_entry id now (reversal_of original_id t reason) s)
              (Ends-map _ (append_entry id now (reversal_of original_id t reason) s) done
                (λ res s' m. record { original = t; found = found; moves = m; flag = refl })))
    ]

-- The entry that a call has just written is found under the id that the call reported.
entry_of-written :
    (id : String) (now : ℕ) (input : AppendEntryInput) (db : Db) {res : AppendEntryResult}
    {after : Db}
    → Moves id now input db res after
    → res.duplicate ≡ false
    → entry_of res.transaction_id after ≡ some (proposed id now input)
entry_of-written id now input db m fresh = rw (m.named fresh, m.ledger) (rw (fresh, eq_refl id))

-- Reversing the entry that a call has just written gives every user the balance from before it.
pub reverse_entry_undoes :
    (id id' : String) (now now' : ℕ) (input : AppendEntryInput) (reason : String) (db : Db)
    {res : AppendEntryResult} {mid : Db} {rev : ReverseEntryResult} {after : Db}
    → transaction (append_entry id now input) db ≡ (ok res, mid)
    → res.duplicate ≡ false
    → transaction (reverse_entry id' now' res.transaction_id reason) mid ≡ (ok rev, after)
    → rev.reversed ≡ true
    → (v : String) → cached v after.user_balances ≡ cached v db.user_balances
reverse_entry_undoes id id' now now' input reason db {res} {mid} {rev} {after} first fresh second
      landed v =
    let m = append_entry_contract id now input db first in
    let r =
      transaction-ok (Reverses id' now' res.transaction_id reason mid)
        (reverse_entry id' now' res.transaction_id reason) mid
        (reverse_entry-Reverses id' now' res.transaction_id reason
          (record { db = mid; locks = [] }))
        second in
    let same : r.original ≡ proposed id now input =
      cc (r.found, entry_of-written id now input db m fresh) in
    let back : Moves id' now' (reversal_of res.transaction_id (proposed id now input) reason) mid
        rev.entry after =
      subst (λ t. Moves id' now' (reversal_of res.transaction_id t reason) mid rev.entry after) same
        r.moves in
    let landed_new : rev.entry.duplicate ≡ false = ground (arith, r.flag) in
    elim (Bool-cases (input.user_id == v)) [
      | inr other ↦ back.others v other ∙ m.others v other
      | inl own ↦
          let e = (eq_iff input.user_id v).0 own in
          let u = input.user_id in
          let sums = +ℤ_negate (cached u db.user_balances) input.delta in
          let home : cached u after.user_balances ≡ cached u db.user_balances =
            ground (arith, m.reported, m.amount, back.reported, back.amount, sums) in
          subst (λ w. cached w after.user_balances ≡ cached w db.user_balances) e home
    ]

module _ (id : String) (now : ℕ) (original_id reason : String) (s : Session)
    (t : PointTransaction) where
  -- how a reversal passes on the result of its entry
  abbrev passed : Result AppendEntryResult × Session → Result ReverseEntryResult × Session
  passed r = proceed (λ result. pure (record { entry = result; reversed = not result.duplicate })) r

  passed_never_short :
      (r : Result AppendEntryResult × Session)
      → Appended id now (reversal_of original_id t reason) s r
      → (u : String) (b : ℤ) (need : ℕ) → (passed r).0 ≢ err (insufficient_points u b need)
  passed_never_short (ok res, s') how u b need h = cc
  passed_never_short (err _, s') (refused v e) u b need h = cc
  passed_never_short (err _, s') (duplicate x found check e) u b need h = cc
  passed_never_short (err _, s') (overdrawn free over e) u b need h = cc
  passed_never_short (err _, s') (credited free check keys enough fits e) u b need h = cc

-- A reversal is never refused for want of points.
reverse_entry_never_short :
    (id : String) (now : ℕ) (original_id reason : String) (s : Session) (u : String) (b : ℤ)
    (need : ℕ)
    → (reverse_entry id now original_id reason s).0 ≢ err (insufficient_points u b need)
unfolding reverse_entry entry_or_missing
reverse_entry_never_short id now original_id reason s u b need =
    elim (Option-cases (entry_of original_id s.db)) [
      | inl absent ↦ rw (absent, entry_or_missing) (λ h. cc)
      | inr (t, found) ↦ rw (reverse_entry-found id now original_id reason s t found) (
          passed_never_short id now original_id reason s t
            (append_entry id now (reversal_of original_id t reason) s)
            (append_entry-Appended id now (reversal_of original_id t reason) s) u b need)
    ]
