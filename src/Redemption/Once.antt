-- ===== src/Redemption/Once.antt =====
-- `redeem` called again with one key (packages/api/src/modules/redemption/redemption.service.ts).
use mini_rewards_integration.Prelude.{
  ℕ, String, true, ◌≡◌, [], refl, ap, ◌∙◌, inl, inr, none, some, ◌==◌, eq_refl, Bool-cases, exists,
  update_where,
}
use mini_rewards_integration.Database.Schema.{fulfilled, Redemption, Db}
use mini_rewards_integration.Database.Exec.{ok, Session, transaction}
use mini_rewards_integration.Redemption.Fulfillment.{FulfillmentResult, issued, declined}
use mini_rewards_integration.Redemption.Statements.{RedeemInput, columns, record_fulfillment}
use mini_rewards_integration.Redemption.Stock.{IsKeyed}
use mini_rewards_integration.Redemption.Compensate.{compensate-Restored}
use mini_rewards_integration.Database.Ends.{Ends, Ends-bind, Ends-eq, transaction-Ends}
use mini_rewards_integration.Ledger.{reversal_source}
use mini_rewards_integration.Ledger.Append.{holder}
use mini_rewards_integration.Redemption.Reserve.{prior, Reserves, Phase1, reserve-Ends}
use mini_rewards_integration.Redemption.{
  Draws, RedemptionOutcome, to_replay_outcome, current_balance, ReserveResult, replayed, fresh,
  reserve_after_prior, reservation, Reservation, reserve, compensate, after_reserve, settle, redeem,
}

-- A key that names a redemption is answered from it, with every table as it was: whether the reward
-- is still offered, in stock or affordable is not even looked at.
redeem_replays :
    (draws : Draws) (input : RedeemInput) (db : Db) (row : Redemption)
    → prior input db ≡ some row
    → redeem draws input db ≡ (ok (to_replay_outcome input.user_id (columns row) db), db)
unfolding redeem reserve reserve_after_prior after_reserve
redeem_replays draws input db row found = rw found

-- What a retry answers after `outcome`: the same body, with the balance of then, marked as a replay.
abbrev pub replay_of : RedeemInput → RedemptionOutcome → Db → RedemptionOutcome
replay_of input outcome db = record outcome {
  balance_after = current_balance input.user_id db;
  replay = true;
}

-- The key's row tells a retry what the first request was told.
abbrev Remembers : RedeemInput → RedemptionOutcome → Db → Type 0
Remembers input outcome db =
    (row : Redemption) × (prior input db ≡ some row)
    × (to_replay_outcome input.user_id (columns row) db ≡ replay_of input outcome db)

record_fulfillment-Ends :
    (id reference : String) (now : ℕ) (s : Session)
    → Ends
        (λ done s'.
          s'.db.redemptions
          ≡ update_where
              (λ r. r.id == id)
              (λ r. record r {
                status = fulfilled;
                fulfillment_ref = some reference;
                fulfilled_at = some now;
              })
              s.db.redemptions)
        (record_fulfillment id reference now s)
unfolding record_fulfillment
record_fulfillment-Ends id reference now s =
    elim (Bool-cases (exists (λ r. r.id == id) s.db.redemptions)) [
      | inl known ↦ rw known refl
      | inr missing ↦ rw missing tt
    ]

module _ (draws : Draws) (input : RedeemInput) (before mid : Db) (r : Reservation)
    (keyed : IsKeyed before.rewards)
    (unreversed : holder reversal_source (some draws.entry_id) before ≡ none)
    (p : Reserves draws input before r mid) where
  settle-Remembers :
      (answer : FulfillmentResult) → Ends (Remembers input) (settle draws input r answer mid)
  unfolding settle
  settle-Remembers (issued reference) =
      Ends-bind (Remembers input)
        (transaction (record_fulfillment r.redemption_id reference draws.settled_at)) _ mid
        (transaction-Ends
          (λ done d.
            d.redemptions
            ≡ update_where (λ x. x.id == r.redemption_id)
                (λ x. record x {
                  status = fulfilled;
                  fulfillment_ref = some reference;
                  fulfilled_at = some draws.settled_at;
                })
                mid.redemptions)
          (record_fulfillment r.redemption_id reference draws.settled_at) mid
          (record_fulfillment-Ends r.redemption_id reference draws.settled_at
            (record { db = mid; locks = [] })))
        λ done after e.
          let id : r.redemption_id ≡ draws.redemption_id =
            ap (λ x. x.redemption_id) p.taken.handed in
          (
            record (reservation draws.redemption_id draws.reserved_at input p.reward) {
              status = fulfilled;
              fulfillment_ref = some reference;
              fulfilled_at = some draws.settled_at;
            },
            rw (e, p.taken.redemptions, id)
                (rw (eq_refl draws.redemption_id)
                  (rw (eq_refl input.user_id, eq_refl input.idempotency_key))),
            rw p.taken.handed,
          )
  settle-Remembers (declined reason) =
      Ends-bind (Remembers input) (transaction (compensate draws r reason)) _ mid
        (compensate-Restored draws input reason before mid r keyed unreversed p)
        λ done after restored.
          let (reward, found, kept) = restored.redemption in
          let same : reward ≡ p.reward = cc (p.found) in (_, kept, rw (same, p.taken.handed))

module _ (draws : Draws) (input : RedeemInput) (db : Db) (keyed : IsKeyed db.rewards)
    (unreversed : holder reversal_source (some draws.entry_id) db ≡ none) where
  after_reserve-Remembers :
      (result : ReserveResult) (mid : Db)
      → Phase1 draws input db result mid
      → Ends (Remembers input) (after_reserve draws input result mid)
  unfolding after_reserve
  after_reserve-Remembers (replayed outcome) mid (row, found, told, same) =
      rw same (row, found, rw told)
  after_reserve-Remembers (fresh r) mid p =
      settle-Remembers draws input db mid r keyed unreversed p _

  redeem-Remembers : Ends (Remembers input) (redeem draws input db)
  unfolding redeem
  redeem-Remembers =
      Ends-bind (Remembers input) (transaction (reserve draws input)) (after_reserve draws input) db
        (transaction-Ends (Phase1 draws input db) (reserve draws input) db
          (reserve-Ends draws input (record { db = db; locks = [] })))
        after_reserve-Remembers

-- After a redemption that returned, however its fulfilment went, a request with the same key repeats
-- its answer, with the balance of now and the replay flag, and changes nothing, whatever the second
-- request draws. (Ids of rewards are unique, and no entry yet reverses the debit's id.)
pub redeem_once :
    (draws draws' : Draws) (input : RedeemInput) (db : Db) {outcome : RedemptionOutcome}
    {after : Db}
    → IsKeyed db.rewards
    → holder reversal_source (some draws.entry_id) db ≡ none
    → redeem draws input db ≡ (ok outcome, after)
    → redeem draws' input after ≡ (ok (replay_of input outcome after), after)
redeem_once draws draws' input db {outcome} {after} keyed unreversed first =
    let (row, found, told) =
      Ends-eq (Remembers input) (redeem draws input db)
        (redeem-Remembers draws input db keyed unreversed) first in
    redeem_replays draws' input after row found ∙ ap (λ o. (ok o, after)) told
