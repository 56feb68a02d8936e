-- ===== src/Allocation/Declined.antt =====
-- What an allocation leaves behind when its fulfilment is declined
-- (packages/api/src/modules/dev/allocation.service.ts).
use mini_rewards_integration.Prelude.{String, false, ◌≡◌, ◌∙◌, some, none}
use mini_rewards_integration.Prelude.Int.{pos, ◌+ℤ◌}
use mini_rewards_integration.Database.Schema.{User, Reward, Db}
use mini_rewards_integration.Database.Exec.{ok, transaction}
use mini_rewards_integration.Ledger.{AppendEntryResult, append_entry, reversal_source}
use mini_rewards_integration.Ledger.Balances.{cached}
use mini_rewards_integration.Ledger.Append.{holder}
use mini_rewards_integration.Ledger.Contract.{append_entry_contract}
use mini_rewards_integration.Redemption.{
  Reservation, fresh, reserve, compensate, settle, after_reserve, redeem,
}
use mini_rewards_integration.Redemption.Fulfillment.{declined, fulfill}
use mini_rewards_integration.Redemption.Stock.{IsKeyed}
use mini_rewards_integration.Redemption.Compensate.{compensate_restores}
use mini_rewards_integration.Allocation.{
  Texts, AllocationDraws, AllocateRewardInput, allocation_credit, allocation_order,
  settle_allocation, redeem_credited, allocate_user,
}

-- Where the credit is new, the reservation is made, the provider declines and the compensation goes
-- through, the user is left with the reward's cost in points on top of the balance from before.
pub declined_allocation_keeps_credit :
    (texts : Texts) (draws : AllocationDraws) (input : AllocateRewardInput) (reward : Reward)
    (user : User) (reason : String) (db mid held after : Db) (r : Reservation)
    {credit : AppendEntryResult}
    → IsKeyed mid.rewards
    → holder reversal_source (some draws.redemption.entry_id) mid ≡ none
    → transaction (append_entry draws.credit_id draws.now (allocation_credit input reward user)) db
      ≡ (ok credit, mid)
    → credit.duplicate ≡ false
    → transaction (reserve draws.redemption (allocation_order input reward user)) mid
      ≡ (ok (fresh r), held)
    → fulfill draws.redemption.random draws.redemption.failure_rate draws.redemption.reference_id
        (record {
          redemption_id = r.redemption_id;
          reward_sku = r.reward_sku;
          user_external_ref = user.id;
        })
      ≡ declined reason
    → transaction (compensate draws.redemption r reason) held ≡ (ok tt, after)
    → cached user.id (allocate_user texts draws input reward user db).1.user_balances
      ≡ cached user.id db.user_balances +ℤ pos reward.cost_points
unfolding allocate_user redeem_credited settle_allocation redeem after_reserve settle
declined_allocation_keeps_credit texts draws input reward user reason db mid held after r {credit}
      keyed unreversed credited new reserved refused compensated =
    let m =
      append_entry_contract draws.credit_id draws.now (allocation_credit input reward user) db
        credited in
    let back =
      compensate_restores draws.redemption (allocation_order input reward user) reason mid held r
        keyed unreversed reserved compensated in
    rw credited (
      rw reserved
        (rw refused (rw compensated (back.balances user.id ∙ (m.reported ∙ (rw new at m.amount))))))
