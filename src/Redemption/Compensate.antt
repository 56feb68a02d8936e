-- ===== src/Redemption/Compensate.antt =====
-- The compensation of phase 2 (packages/api/src/modules/redemption/redemption.service.ts).
use mini_rewards_integration.Prelude.{
  String, true, false, ◌≡◌, [], refl, sym, ap, subst, ◌∙◌, inl, inr, none, some, List, ◌∷◌, ◌==◌,
  ◌&&◌, arith, eq_refl, eq_iff, find?, find-holds, exists, update_where, update_where-none, is_some,
  Bool-cases,
}
use mini_rewards_integration.Prelude.Int.{ℤ, pos, negate, +ℤ_negate}
use mini_rewards_integration.Database.Schema.{failed, Reward, Redemption, PointTransaction, Db}
use mini_rewards_integration.Database.Exec.{ok, Session, transaction}
use mini_rewards_integration.Database.Ends.{Ends, Ends-bind, Ends-map, Ends-eq, transaction-Ends}
use mini_rewards_integration.Ledger.{
  ReverseEntryResult, proposed, reversal_of, reversal_source, reverse_entry,
}
use mini_rewards_integration.Ledger.Balances.{cached}
use mini_rewards_integration.Ledger.Append.{holder}
use mini_rewards_integration.Ledger.Contract.{Moves}
use mini_rewards_integration.Ledger.Reversal.{entry_of, Reverses, reverse_entry-Reverses}
use mini_rewards_integration.Redemption.Statements.{
  RedeemInput, one_more, is_reserved, fail_reservation, increment_stock,
}
use mini_rewards_integration.Redemption.Taken.{Taken, one_taken}
use mini_rewards_integration.Redemption.Stock.{IsKeyed, one_given, one_given-one_taken}
use mini_rewards_integration.Redemption.Reserve.{
  prior, listed, claimed_db, Reserves, reserve_contract,
}
use mini_rewards_integration.Redemption.{
  Draws, debit, reservation, Reservation, fresh, reserve, compensate_claimed, compensate,
}

-- The redemptions once a reservation is marked as failed.
abbrev pub failed_rows : String → String → List Redemption → List Redemption
failed_rows id reason rows =
    update_where (λ r. r.id == id && is_reserved r.status)
      (λ r. record r { status = failed; failure_reason = some reason }) rows

fail_reservation-Ends :
    (id reason : String) (s : Session)
    → exists (λ r. r.id == id && is_reserved r.status) s.db.redemptions ≡ true
    → Ends
        (λ claimed s'.
          (claimed ≡ true)
          × (s'.db ≡ record s.db { redemptions = failed_rows id reason s.db.redemptions }))
        (fail_reservation id reason s)
unfolding fail_reservation
fail_reservation-Ends id reason s held = rw held (refl, refl)

increment_stock-Ends :
    (id : String) (s : Session)
    → Ends
        (λ done s'. s'.db ≡ record s.db { rewards = one_given id s.db.rewards })
        (increment_stock id s)
unfolding increment_stock
increment_stock-Ends id s =
    elim (Bool-cases (exists (λ r. r.id == id && is_some r.stock) s.db.rewards)) [
      | inl limited ↦ rw limited refl
      | inr unlimited ↦
          let same =
            update_where-none (λ r. r.id == id && is_some r.stock)
              (λ r. record r { stock = one_more r.stock }) s.db.rewards unlimited in
          rw unlimited (ap (λ rs. record s.db { rewards = rs }) (sym same))
    ]

-- `after` is `before` with the failed redemption, its debit and the debit's reversal on record.
pub record Restored (draws : Draws) (input : RedeemInput) (reason : String) (before after : Db)
    : Type 0 where
  pub balances : (v : String) → cached v after.user_balances ≡ cached v before.user_balances
  pub rewards : after.rewards ≡ before.rewards
  pub redemption :
      (reward : Reward) × (listed input before ≡ some reward)
      × (prior input after
          ≡ some (record (reservation draws.redemption_id draws.reserved_at input reward) {
            status = failed;
            failure_reason = some reason;
          }))

module _ (draws : Draws) (input : RedeemInput) (reward : Reward) (reason : String) (before mid : Db)
    (b : ℤ) (found : listed input before ≡ some reward) (keyed : IsKeyed before.rewards)
    (unreversed : holder reversal_source (some draws.entry_id) before ≡ none) where
  -- what phase 1 handed over
  abbrev ticket : Reservation
  ticket = record {
    redemption_id = draws.redemption_id;
    ledger_entry_id = draws.entry_id;
    reward_id = reward.id;
    reward_sku = reward.sku;
    reward_name = reward.name;
    cost_points = reward.cost_points;
    balance_after = b;
  }

  abbrev spent : PointTransaction
  spent = proposed draws.entry_id draws.reserved_at (debit input reward draws.redemption_id)

  module _
      (t : Taken draws input reward draws.redemption_id
        (claimed_db draws input reward before)
        ticket
        mid) where
    held : exists (λ r. r.id == draws.redemption_id && is_reserved r.status) mid.redemptions ≡ true
    held = rw t.redemptions (rw (eq_refl draws.redemption_id) refl)

    module _ (failed_db reversed_db after : Db) (rev : ReverseEntryResult)
        (e1 : failed_db
          ≡ record mid { redemptions = failed_rows draws.redemption_id reason mid.redemptions })
        (r : Reverses draws.reversal_id draws.settled_at draws.entry_id reason failed_db rev
          reversed_db)
        (e3 : after
          ≡ record reversed_db { rewards = one_given reward.id reversed_db.rewards }) where
      ledger_then : failed_db.point_transactions ≡ spent ∷ before.point_transactions
      ledger_then = ap (λ d. d.point_transactions) e1 ∙ t.ledger

      original : r.original ≡ spent
      original =
          let e : entry_of draws.entry_id failed_db ≡ some spent =
            rw ledger_then (rw (eq_refl draws.entry_id) refl) in
          cc (r.found)

      moves :
          Moves draws.reversal_id draws.settled_at
            (reversal_of draws.entry_id spent reason)
            failed_db
            rev.entry
            reversed_db
      moves =
          subst
            (λ x.
              Moves draws.reversal_id draws.settled_at (reversal_of draws.entry_id x reason)
                failed_db rev.entry reversed_db)
            original r.moves

      new_entry : rev.entry.duplicate ≡ false
      new_entry = moves.unrecorded (rw ledger_then unreversed)

      home : cached input.user_id after.user_balances ≡ cached input.user_id before.user_balances
      home = ground (
        arith,
        ap (λ d. cached input.user_id d.user_balances) e3,
        ap (λ d. cached input.user_id d.user_balances) e1,
        moves.reported,
        moves.amount,
        new_entry,
        t.debited,
        +ℤ_negate (cached input.user_id before.user_balances) (negate (pos reward.cost_points)),
      )

      balances_back : (v : String) → cached v after.user_balances ≡ cached v before.user_balances
      balances_back v = elim (Bool-cases (input.user_id == v)) [
        | inl own ↦
            subst (λ w. cached w after.user_balances ≡ cached w before.user_balances)
              ((eq_iff input.user_id v).0 own) home
        | inr other ↦
            ap (λ d. cached v d.user_balances) e3
            ∙ (moves.others v other ∙ (ap (λ d. cached v d.user_balances) e1 ∙ t.others v other))
      ]

      rewards_then : reversed_db.rewards ≡ one_taken reward before.rewards
      rewards_then = ap (λ d. d.rewards) moves.elsewhere ∙ (ap (λ d. d.rewards) e1 ∙ t.stock)

      own_id : find? (λ r. r.id == reward.id) before.rewards ≡ some reward
      own_id =
          let e =
            (eq_iff reward.id input.reward_id).0
              (find-holds (λ r. r.id == input.reward_id) before.rewards reward found) in
          subst (λ k. find? (λ r. r.id == k) before.rewards ≡ some reward) (sym e) found

      rewards_back : after.rewards ≡ before.rewards
      rewards_back =
          ap (λ d. d.rewards) e3
          ∙ (rw rewards_then (one_given-one_taken reward before.rewards keyed own_id t.available))

      redemptions_then :
          after.redemptions
          ≡ failed_rows draws.redemption_id reason
              (reservation draws.redemption_id draws.reserved_at input reward ∷ before.redemptions)
      redemptions_then =
          ap (λ d. d.redemptions) e3
          ∙ (ap (λ d. d.redemptions) moves.elsewhere
              ∙ (ap (λ d. d.redemptions) e1 ∙ rw t.redemptions))

      restored : Restored draws input reason before after
      restored = record {
        balances = balances_back;
        rewards = rewards_back;
        redemption = (
          reward,
          found,
          rw redemptions_then (
              rw (eq_refl draws.redemption_id)
                (rw (eq_refl input.user_id, eq_refl input.idempotency_key))),
        );
      }

    compensate-Ends :
        Ends
          (λ done s'. Restored draws input reason before s'.db)
          (compensate draws ticket reason (record { db = mid; locks = [] }))
    unfolding compensate compensate_claimed
    compensate-Ends =
        Ends-bind _ (fail_reservation draws.redemption_id reason) _
          (record { db = mid; locks = [] })
          (fail_reservation-Ends draws.redemption_id reason (record { db = mid; locks = [] }) held)
          λ claimed s1 c. rw c.0 (
            Ends-bind _ (reverse_entry draws.reversal_id draws.settled_at draws.entry_id reason) _
              s1
              (reverse_entry-Reverses draws.reversal_id draws.settled_at draws.entry_id reason s1)
              λ rev s2 r.
                Ends-map _ (increment_stock reward.id s2) (increment_stock-Ends reward.id s2)
                  λ done s3 e3. restored s1.db s2.db s3.db rev c.1 r e3)

pub compensate-Restored :
    (draws : Draws) (input : RedeemInput) (reason : String) (before mid : Db) (r : Reservation)
    → IsKeyed before.rewards
    → holder reversal_source (some draws.entry_id) before ≡ none
    → Reserves draws input before r mid
    → Ends
        (λ done after. Restored draws input reason before after)
        (transaction (compensate draws r reason) mid)
compensate-Restored draws input reason before mid r keyed unreversed p =
    let b = cached input.user_id mid.user_balances in
    let t =
      subst
        (λ x.
          Taken draws input p.reward draws.redemption_id (claimed_db draws input p.reward before) x
            mid)
        p.taken.handed p.taken in
    rw p.taken.handed (
      transaction-Ends (λ done after. Restored draws input reason before after)
        (compensate draws (ticket draws input p.reward reason before mid b p.found keyed unreversed)
          reason)
        mid (compensate-Ends draws input p.reward reason before mid b p.found keyed unreversed t))

-- Compensating a reservation that phase 1 has just made, if no entry reverses its debit yet, gives
-- every user the balance, and every reward the stock, from before phase 1; the redemption stays on
-- record under its key, as failed with the reason.
pub compensate_restores :
    (draws : Draws) (input : RedeemInput) (reason : String) (before mid : Db) (r : Reservation)
    {after : Db}
    → IsKeyed before.rewards
    → holder reversal_source (some draws.entry_id) before ≡ none
    → transaction (reserve draws input) before ≡ (ok (fresh r), mid)
    → transaction (compensate draws r reason) mid ≡ (ok tt, after)
    → Restored draws input reason before after
compensate_restores draws input reason before mid r {after} keyed unreversed first second =
    Ends-eq (λ done d. Restored draws input reason before d)
      (transaction (compensate draws r reason) mid)
      (compensate-Restored draws input reason before mid r keyed unreversed
        (reserve_contract draws input before first))
      second
