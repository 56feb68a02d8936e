-- ===== src/Redemption.antt =====
-- packages/api/src/modules/redemption/redemption.service.ts: phase 1 (`reserve`), phase 2 with its
-- compensation, and `redeem` over both.
pub mod Fulfillment
pub mod Statements
pub mod Books
pub mod Reconciled
pub mod Taken
pub mod Reserve
pub mod Stock
pub mod Compensate
pub mod Once
use Prim.Native.String.{◌++◌}
use Fulfillment.{FulfillmentResult, issued, declined, fulfill}
use Statements.{
  RedeemInput, ReservationRow, row_by_key, select_for_update, insert_redemption, decrement_stock,
  increment_stock, fail_reservation, record_fulfillment,
}
use mini_rewards_integration.Prelude.{
  ℕ, String, Bool, true, false, Option, none, some, ◌==◌, or_default, find?, if◌then◌else◌,
}
use mini_rewards_integration.Prelude.Int.{ℤ, pos, negate}
use mini_rewards_integration.Database.Schema.{
  RedemptionStatus, reserved, fulfilled, failed, TransactionType, Reward, Redemption, UserBalance,
  Db,
}
use mini_rewards_integration.Database.Exec.{
  reward_not_found, reward_unavailable, out_of_stock, reward_inactive, unexpected, Exec, Action,
  Client, pure, raise, gets, ◌>>=◌, ◌>>◌, query, transaction,
}
use mini_rewards_integration.Ledger.{
  AppendEntryInput, AppendEntryResult, lock_balance, append_entry, reverse_entry,
}

-- What one request draws from `randomUUID`, the clock, `Math.random` and the environment.
pub record Draws : Type 0 where
  pub redemption_id : String
  pub retry_id : String
  pub entry_id : String
  pub reversal_id : String
  pub reference_id : String
  pub reserved_at : ℕ
  pub settled_at : ℕ
  pub random : ℕ
  pub failure_rate : ℕ

pub record RedemptionOutcome : Type 0 where
  pub redemption_id : String
  pub status : RedemptionStatus
  pub reward_name : String
  pub cost_points : ℕ
  pub balance_after : ℤ
  pub fulfillment_ref : Option String
  pub failure_reason : Option String
  pub replay : Bool

pub record Claim : Type 0 where
  pub claimed : Bool
  pub row : ReservationRow

-- The row that a claim proposes.
abbrev pub reservation : String → ℕ → RedeemInput → Reward → Redemption
reservation id now input reward = record {
  id = id;
  user_id = input.user_id;
  reward_id = reward.id;
  status = reserved;
  cost_points_snapshot = reward.cost_points;
  reward_name_snapshot = reward.name;
  idempotency_key = input.idempotency_key;
  fulfillment_ref = none;
  failure_reason = none;
  reserved_at = now;
  created_at = now;
  fulfilled_at = none;
}

-- The end of the claim: the one retry has failed, and its holder is found or it is not.
unfoldable pub settled_claim : RedeemInput → Option ReservationRow → Action Claim
settled_claim input (some row) = pure (record { claimed = false; row = row })
settled_claim input none = raise (
    unexpected (
      "Idempotency key " ++ input.idempotency_key
      ++ " could not be claimed or read after one retry."))

unfoldable pub retried_claim : RedeemInput → Option ReservationRow → Action Claim
retried_claim input (some row) = pure (record { claimed = true; row = row })
retried_claim input none = do after_retry ← select_for_update input; settled_claim input after_retry

unfoldable pub waited_claim : Draws → RedeemInput → Reward → Option ReservationRow → Action Claim
waited_claim draws input reward (some row) = pure (record { claimed = false; row = row })
waited_claim draws input reward none = do
  retried ← insert_redemption (reservation draws.retry_id draws.reserved_at input reward)
  retried_claim input retried

unfoldable pub inserted_claim : Draws → RedeemInput → Reward → Option ReservationRow → Action Claim
inserted_claim draws input reward (some row) = pure (record { claimed = true; row = row })
inserted_claim draws input reward none = do
  waited ← select_for_update input
  waited_claim draws input reward waited

unfoldable pub claim_idempotency_key : Draws → RedeemInput → Reward → Action Claim
claim_idempotency_key draws input reward = do
  inserted ← insert_redemption (reservation draws.redemption_id draws.reserved_at input reward)
  inserted_claim draws input reward inserted

-- `row?.balance ?? 0`
abbrev pub balance_or_zero : Option UserBalance → ℤ
balance_or_zero none = pos 0
balance_or_zero (some row) = row.balance

unfoldable pub current_balance : String → Db → ℤ
current_balance user_id db = balance_or_zero (find? (λ b. b.user_id == user_id) db.user_balances)

abbrev pub to_replay_outcome : String → ReservationRow → Db → RedemptionOutcome
to_replay_outcome user_id row db = record {
  redemption_id = row.id;
  status = row.status;
  reward_name = row.reward_name_snapshot;
  cost_points = row.cost_points_snapshot;
  balance_after = current_balance user_id db;
  fulfillment_ref = row.fulfillment_ref;
  failure_reason = row.failure_reason;
  replay = true;
}

-- What phase 1 hands to phase 2.
pub record Reservation : Type 0 where
  pub redemption_id : String
  pub ledger_entry_id : String
  pub reward_id : String
  pub reward_sku : String
  pub reward_name : String
  pub cost_points : ℕ
  pub balance_after : ℤ

pub data ReserveResult : Type 0 where
  replayed : RedemptionOutcome → ReserveResult
  fresh : Reservation → ReserveResult

-- The stock unit: a limited reward gives one up or refuses; an unlimited one is not touched.
unfoldable pub taken_or_out : Reward → Bool → Action Unit
taken_or_out reward true = pure tt
taken_or_out reward false =
    raise (reward_unavailable out_of_stock (reward.name ++ " is out of stock."))

unfoldable pub take_stock : Reward → Option ℕ → Action Unit
take_stock reward none = pure tt
take_stock reward (some read) = do
  decremented ← decrement_stock reward.id
  taken_or_out reward decremented

-- The debit of a reward's cost.
abbrev pub debit : RedeemInput → Reward → String → AppendEntryInput
debit input reward redemption_id = record {
  user_id = input.user_id;
  delta = negate (pos reward.cost_points);
  type = TransactionType.redeem;
  source = "redemption";
  external_event_id = none;
  redemption_id = some redemption_id;
  rule_id = none;
  reverses_id = none;
  description = "Redeemed " ++ reward.name;
  metadata = none;
  enforce_non_negative = none;
  created_at = none;
}

-- With the key claimed: lock the balance, take the stock, debit the ledger.
unfoldable pub take : Draws → RedeemInput → Reward → ReservationRow → Action ReserveResult
take draws input reward row = do
  lock_balance draws.reserved_at input.user_id
  take_stock reward reward.stock
  entry ← append_entry draws.entry_id draws.reserved_at (debit input reward row.id)
  pure (
      fresh (record {
        redemption_id = row.id;
        ledger_entry_id = entry.transaction_id;
        reward_id = reward.id;
        reward_sku = reward.sku;
        reward_name = reward.name;
        cost_points = reward.cost_points;
        balance_after = entry.balance_after;
      }))

unfoldable pub reserve_claimed :
    Draws → RedeemInput → Reward → Bool → ReservationRow → Action ReserveResult
reserve_claimed draws input reward true row = take draws input reward row
reserve_claimed draws input reward false row = do
  outcome ← query (to_replay_outcome input.user_id row)
  pure (replayed outcome)

-- The guards on the reward that was read, then the claim.
unfoldable pub reserve_reward : Draws → RedeemInput → Option Reward → Action ReserveResult
reserve_reward draws input none = raise (reward_not_found input.reward_id)
reserve_reward draws input (some reward) =
    if reward.active
    then (do
      claim ← claim_idempotency_key draws input reward
      reserve_claimed draws input reward claim.claimed claim.row)
    else raise (reward_unavailable reward_inactive (reward.name ++ " is no longer available."))

-- A prior redemption under the key answers before the reward is even read.
unfoldable pub reserve_after_prior :
    Draws → RedeemInput → Option ReservationRow → Action ReserveResult
reserve_after_prior draws input (some prior) = do
  outcome ← query (to_replay_outcome input.user_id prior)
  pure (replayed outcome)
reserve_after_prior draws input none = do
  reward ← query (λ db. find? (λ r. r.id == input.reward_id) db.rewards)
  reserve_reward draws input reward

unfoldable pub reserve : Draws → RedeemInput → Action ReserveResult
reserve draws input = do prior ← query (row_by_key input); reserve_after_prior draws input prior

-- Past the guard of `compensate`: reverse the debit, then give the stock back.
unfoldable pub compensate_claimed : Draws → Reservation → String → Bool → Action Unit
compensate_claimed draws reservation reason false = pure tt
compensate_claimed draws reservation reason true = do
  reverse_entry draws.reversal_id draws.settled_at reservation.ledger_entry_id reason
  increment_stock reservation.reward_id

unfoldable pub compensate : Draws → Reservation → String → Action Unit
compensate draws reservation reason = do
  claimed ← fail_reservation reservation.redemption_id reason
  compensate_claimed draws reservation reason claimed

-- Phase 2, on what the provider answered.
unfoldable pub settle :
    Draws → RedeemInput → Reservation → FulfillmentResult → Client RedemptionOutcome
settle draws input reservation (issued reference) = do
  transaction (record_fulfillment reservation.redemption_id reference draws.settled_at)
  pure (record {
    redemption_id = reservation.redemption_id;
    status = fulfilled;
    reward_name = reservation.reward_name;
    cost_points = reservation.cost_points;
    balance_after = reservation.balance_after;
    fulfillment_ref = some reference;
    failure_reason = none;
    replay = false;
  })
settle draws input reservation (declined reason) = do
  transaction (compensate draws reservation reason)
  balance_now ← gets (current_balance input.user_id)
  pure (record {
    redemption_id = reservation.redemption_id;
    status = failed;
    reward_name = reservation.reward_name;
    cost_points = reservation.cost_points;
    balance_after = balance_now;
    fulfillment_ref = none;
    failure_reason = some reason;
    replay = false;
  })

unfoldable pub after_reserve : Draws → RedeemInput → ReserveResult → Client RedemptionOutcome
after_reserve draws input (replayed outcome) = pure outcome
after_reserve draws input (fresh reservation) = settle draws input reservation (
    fulfill draws.random draws.failure_rate draws.reference_id (record {
      redemption_id = reservation.redemption_id;
      reward_sku = reservation.reward_sku;
      user_external_ref = input.user_id;
    }))

unfoldable pub redeem : Draws → RedeemInput → Client RedemptionOutcome
redeem draws input = do
  reservation ← transaction (reserve draws input)
  after_reserve draws input reservation
