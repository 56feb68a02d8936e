-- ===== src/Tests/Allocation.antt =====
-- An allocation whose fulfilment is declined, and one that is tried again.
use mini_rewards_integration.Prelude.{String, false, ◌≡◌, refl, some, none, [], ◌∷◌}
use mini_rewards_integration.Prelude.Int.{pos, ◌+ℤ◌}
use mini_rewards_integration.Database.Schema.{Db}
use mini_rewards_integration.Database.Exec.{ok, transaction}
use mini_rewards_integration.Ledger.{append_entry, reversal_source}
use mini_rewards_integration.Ledger.Append.{holder}
use mini_rewards_integration.Redemption.{Reservation, fresh, reserve, compensate}
use mini_rewards_integration.Redemption.Statements.{RedeemInput}
use mini_rewards_integration.Redemption.Fulfillment.{declined, fulfill}
use mini_rewards_integration.Redemption.Stock.{IsKeyed}
use mini_rewards_integration.Allocation.Declined.{declined_allocation_keeps_credit}
use mini_rewards_integration.Ledger.Balances.{cached}
use mini_rewards_integration.Allocation.{
  AllocateRewardInput, AllocationDraws, Texts, redeemed, undo_credit, settle_allocation,
  redeem_credited, allocate_user, allocate_users, allocate_found, allocate_reward, allocation_order,
  allocation_credit, describe_failure,
}
use mini_rewards_integration.Tests.{ada, mug, after_purchase, empty_shop}
use mini_rewards_integration.Tests.Redemption.{unlucky, redemption_run}

abbrev texts : Texts
texts = record { show_balance = λ b. "few"; show_amount = λ n. "many"; message = λ e. "failed" }

abbrev gift : AllocateRewardInput
gift = record { reward_id = "r1"; user_ids = "u1" ∷ []; allocation_key = "a1" }

abbrev allocation_draws : AllocationDraws
allocation_draws = record { credit_id = "t1"; undo_id = "t9"; now = 7; redemption = unlucky }

-- Ada had no points; the allocation reports a failure and leaves her the price of the mug.
declined_allocation_pays :
    cached "u1" (allocate_reward texts (λ k. allocation_draws) gift empty_shop).1.user_balances
    ≡ pos 30
unfolding redemption_run redeemed undo_credit settle_allocation redeem_credited allocate_user
    allocate_users allocate_found allocate_reward cached
declined_allocation_pays = refl

abbrev declined_text : String
declined_text = "Fulfilment provider rejected MUG (simulated failure)."

abbrev gift_order : RedeemInput
gift_order = allocation_order gift mug ada

abbrev after_credit : Db
after_credit = (transaction (append_entry "t1" 7 (allocation_credit gift mug ada)) empty_shop).1

abbrev after_hold : Db
after_hold = (transaction (reserve unlucky gift_order) after_credit).1

abbrev gift_ticket : Reservation
gift_ticket = record {
  redemption_id = "d1";
  ledger_entry_id = "t2";
  reward_id = "r1";
  reward_sku = "MUG";
  reward_name = "Mug";
  cost_points = 30;
  balance_after = pos 0;
}

abbrev after_return : Db
after_return = (transaction (compensate unlucky gift_ticket declined_text) after_hold).1

run-credit : transaction (append_entry "t1" 7 (allocation_credit gift mug ada)) empty_shop ≡ (
  ok (record { transaction_id = "t1"; balance_after = pos 30; duplicate = false }),
  after_credit,
)
unfolding redemption_run
run-credit = refl

unreversed : holder reversal_source (some "t2") after_credit ≡ none
unfolding redemption_run
unreversed = refl

run-hold :
    transaction (reserve unlucky gift_order) after_credit ≡ (ok (fresh gift_ticket), after_hold)
unfolding redemption_run
run-hold = refl

run-return :
    transaction (compensate unlucky gift_ticket declined_text) after_hold ≡ (ok tt, after_return)
unfolding redemption_run
run-return = refl

run-decline :
    fulfill 0 1 "ref1"
      (record { redemption_id = "d1"; reward_sku = "MUG"; user_external_ref = "u1" })
    ≡ declined declined_text
unfolding redemption_run
run-decline = refl

after_credit-IsKeyed : IsKeyed after_credit.rewards
unfolding redemption_run
after_credit-IsKeyed = (refl, tt)

declined_allocation_keeps_credit_example :
    cached "u1" (allocate_user texts allocation_draws gift mug ada empty_shop).1.user_balances
    ≡ cached "u1" empty_shop.user_balances +ℤ pos 30
declined_allocation_keeps_credit_example =
    declined_allocation_keeps_credit texts allocation_draws gift mug ada declined_text empty_shop
      after_credit after_hold after_return gift_ticket after_credit-IsKeyed unreversed run-credit
      refl run-hold run-decline run-return

-- Ada owns 50 points. An allocation fails for want of stock and its credit is reversed; once there is
-- stock, the same allocation is tried again, and she pays for the mug herself.
abbrev sold_out : Db
sold_out = record after_purchase { rewards = record mug { stock = some 0 } ∷ [] }

abbrev first_draws : AllocationDraws
first_draws = record allocation_draws {
  credit_id = "t7";
  redemption = record unlucky { random = 5; redemption_id = "d7" };
}

abbrev second_draws : AllocationDraws
second_draws = record first_draws { credit_id = "t8" }

abbrev restocked : Db
restocked = record ((allocate_reward texts (λ k. first_draws) gift sold_out).1) {
  rewards = mug ∷ [];
}

retried_allocation_charges :
    cached "u1" (allocate_reward texts (λ k. second_draws) gift restocked).1.user_balances ≡ pos 20
unfolding redemption_run redeemed undo_credit settle_allocation redeem_credited allocate_user
    allocate_users allocate_found allocate_reward describe_failure cached
retried_allocation_charges = refl
