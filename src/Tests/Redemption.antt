-- ===== src/Tests/Redemption.antt =====
-- A redemption that is fulfilled and one whose fulfilment fails, with the results at each.
use mini_rewards_integration.Prelude.{false, ◌≡◌, refl, none, some}
use mini_rewards_integration.Prelude.Int.{pos}
use mini_rewards_integration.Database.Schema.{fulfilled, Redemption, Db}
use mini_rewards_integration.Database.Exec.{ok, transaction}
use mini_rewards_integration.Database.Constraints.{redemption_keys}
use mini_rewards_integration.Ledger.Balances.{IsReconciled}
use mini_rewards_integration.Redemption.{
  Draws, reservation, RedemptionOutcome, Reservation, fresh, settled_claim, retried_claim,
  waited_claim, inserted_claim, claim_idempotency_key, current_balance, taken_or_out, take_stock,
  take, reserve_claimed, reserve_reward, reserve_after_prior, reserve, compensate_claimed,
  compensate, settle, after_reserve, redeem,
}
use mini_rewards_integration.Redemption.Fulfillment.{fulfill}
use mini_rewards_integration.Redemption.Statements.{
  RedeemInput, lock_found, select_for_update, insert_redemption, decrement_stock, increment_stock,
  fail_reservation, record_fulfillment,
}
use mini_rewards_integration.Redemption.Reconciled.{redeem-IsReconciled}
use mini_rewards_integration.Redemption.Reserve.{prior, Phase1, reserve_contract}
use mini_rewards_integration.Redemption.Compensate.{Restored, compensate_restores}
use mini_rewards_integration.Redemption.Once.{replay_of, redeem_once}
use mini_rewards_integration.Tests.{mug, ledger_run, after_purchase, after_purchase-IsReconciled}

abbrev order : RedeemInput
order = record { user_id = "u1"; reward_id = "r1"; idempotency_key = "k1" }

abbrev pub lucky : Draws
lucky = record {
  redemption_id = "d1";
  retry_id = "d2";
  entry_id = "t2";
  reversal_id = "t3";
  reference_id = "ref1";
  reserved_at = 8;
  settled_at = 9;
  random = 5;
  failure_rate = 1;
}

abbrev pub unlucky : Draws
unlucky = record lucky { random = 0 }

-- A program, with the operations of a redemption open.
unfoldable pub redemption_run : {S A : Type 0} → (S → A) → S → A
unfolding ledger_run redemption_keys settled_claim retried_claim waited_claim inserted_claim
    claim_idempotency_key current_balance taken_or_out take_stock take reserve_claimed
    reserve_reward reserve_after_prior reserve compensate_claimed compensate settle after_reserve
    redeem fulfill lock_found select_for_update insert_redemption decrement_stock increment_stock
    fail_reservation record_fulfillment
redemption_run m s = m s

abbrev after_order : Db
after_order = (redeem lucky order after_purchase).1

abbrev bought : RedemptionOutcome
bought = record {
  redemption_id = "d1";
  status = fulfilled;
  reward_name = "Mug";
  cost_points = 30;
  balance_after = pos 20;
  fulfillment_ref = some "sim_ref1";
  failure_reason = none;
  replay = false;
}

run-order : redeem lucky order after_purchase ≡ (ok bought, after_order)
unfolding redemption_run
run-order = refl

redeem_once_example :
    redeem unlucky order after_order ≡ (ok (replay_of order bought after_order), after_order)
redeem_once_example = redeem_once lucky unlucky order after_purchase (refl, tt) refl run-order

abbrev order_row : Redemption
order_row = record (reservation "d1" 8 order mug) {
  status = fulfilled;
  fulfillment_ref = some "sim_ref1";
  fulfilled_at = some 9;
}

run-prior : prior order after_order ≡ some order_row
unfolding redemption_run
run-prior = refl

redeem-IsReconciled_example : IsReconciled (redeem unlucky order after_purchase).1
redeem-IsReconciled_example =
    redeem-IsReconciled unlucky order after_purchase after_purchase-IsReconciled

abbrev ticket : Reservation
ticket = record {
  redemption_id = "d1";
  ledger_entry_id = "t2";
  reward_id = "r1";
  reward_sku = "MUG";
  reward_name = "Mug";
  cost_points = 30;
  balance_after = pos 20;
}

abbrev after_reservation : Db
after_reservation = (transaction (reserve unlucky order) after_purchase).1

run-reserve :
    transaction (reserve unlucky order) after_purchase ≡ (ok (fresh ticket), after_reservation)
unfolding redemption_run
run-reserve = refl

reserve_contract_example : Phase1 unlucky order after_purchase (fresh ticket) after_reservation
reserve_contract_example = reserve_contract unlucky order after_purchase run-reserve

abbrev after_compensation : Db
after_compensation = (transaction (compensate unlucky ticket "declined") after_reservation).1

run-compensate :
    transaction (compensate unlucky ticket "declined") after_reservation
    ≡ (ok tt, after_compensation)
unfolding redemption_run
run-compensate = refl

compensate_restores_example : Restored unlucky order "declined" after_purchase after_compensation
compensate_restores_example =
    compensate_restores unlucky order "declined" after_purchase after_reservation ticket (refl, tt)
      refl run-reserve run-compensate
