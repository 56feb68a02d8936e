-- ===== src/Allocation.antt =====
-- packages/api/src/modules/dev/allocation.service.ts: an administrator gives a reward to many users,
-- each by a credit of its cost and an ordinary redemption.
pub mod Books
pub mod Declined
use Prim.Native.String.{◌++◌}
use mini_rewards_integration.Prelude.{
  ℕ, suc, String, Option, none, some, List, [], ◌∷◌, ◌==◌, find?, exists, select, or_default,
}
use mini_rewards_integration.Prelude.Int.{ℤ, pos}
use mini_rewards_integration.Database.Json.{text, object, end, field}
use mini_rewards_integration.Database.Schema.{adjustment, failed as not_fulfilled, User, Reward, Db}
use mini_rewards_integration.Database.Exec.{
  Error, insufficient_points, reward_not_found, reward_unavailable, Result, ok, err, Client, pure,
  raise, gets, ◌>>=◌, ◌>>◌, transaction,
}
use mini_rewards_integration.Ledger.{
  AppendEntryInput, AppendEntryResult, append_entry, reverse_entry,
}
use mini_rewards_integration.Redemption.Statements.{RedeemInput}
use mini_rewards_integration.Redemption.{Draws, RedemptionOutcome, redeem}

pub data AllocationStatus : Type 0 where
  allocated failed : AllocationStatus

pub record AllocationOutcome : Type 0 where
  pub user_id : String
  pub display_name : String
  pub status : AllocationStatus
  pub reason : Option String

pub record AllocateRewardInput : Type 0 where
  pub reward_id : String
  pub user_ids : List String
  pub allocation_key : String

abbrev pub admin_source : String
admin_source = "admin"

-- What one user's allocation draws: the ids of the credit and of its reversal, and a redemption's.
pub record AllocationDraws : Type 0 where
  pub credit_id : String
  pub undo_id : String
  pub now : ℕ
  pub redemption : Draws

-- How the runtime writes a number, and `error.message` of the errors with a text of their own.
pub record Texts : Type 0 where
  pub show_balance : ℤ → String
  pub show_amount : ℕ → String
  pub message : Error → String

unfoldable pub describe_failure : Texts → Error → String
describe_failure texts (reward_unavailable why message) = message
describe_failure texts (insufficient_points user_id balance requested) =
    "Balance is "
    ++ texts.show_balance balance
    ++ " after the credit, which does not cover "
    ++ texts.show_amount requested
    ++ "."
describe_failure texts error = texts.message error

abbrev pub per_user_key : AllocateRewardInput → User → String
per_user_key input user = input.allocation_key ++ ":" ++ user.id

-- The credit that is to pay for the reward.
abbrev pub allocation_credit : AllocateRewardInput → Reward → User → AppendEntryInput
allocation_credit input reward user = record {
  user_id = user.id;
  delta = pos reward.cost_points;
  type = adjustment;
  source = admin_source;
  external_event_id = some (per_user_key input user);
  redemption_id = none;
  rule_id = none;
  reverses_id = none;
  description = "Allocated by admin: " ++ reward.name;
  metadata = some (
      object (
        field "rewardId" (text reward.id) (field "allocationKey" (text input.allocation_key) end)));
  enforce_non_negative = none;
  created_at = none;
}

abbrev pub allocation_order : AllocateRewardInput → Reward → User → RedeemInput
allocation_order input reward user = record {
  user_id = user.id;
  reward_id = reward.id;
  idempotency_key = per_user_key input user;
}

-- A redemption that returned: allocated, unless its fulfilment failed.
unfoldable pub redeemed : User → RedemptionOutcome → AllocationOutcome
redeemed user outcome = elim outcome.status [
  | not_fulfilled ↦ record {
    user_id = user.id;
    display_name = user.display_name;
    status = failed;
    reason = some (or_default outcome.failure_reason "Fulfilment failed.");
  }
  | _ ↦ record {
    user_id = user.id;
    display_name = user.display_name;
    status = allocated;
    reason = none;
  }
]

module _ (texts : Texts) where
  -- The `catch`: the credit is reversed.
  unfoldable pub undo_credit :
      AllocationDraws → User → AppendEntryResult → Error → Client AllocationOutcome
  undo_credit draws user credit error = do
    let reason = describe_failure texts error
    transaction (
        reverse_entry draws.undo_id draws.now credit.transaction_id
          ("Allocation failed: " ++ reason))
    pure (record {
      user_id = user.id;
      display_name = user.display_name;
      status = failed;
      reason = some reason;
    })

  unfoldable pub settle_allocation :
      AllocationDraws
      → User
      → AppendEntryResult
      → Result RedemptionOutcome × Db
      → Result AllocationOutcome × Db
  settle_allocation draws user credit (ok outcome, db) = (ok (redeemed user outcome), db)
  settle_allocation draws user credit (err error, db) = undo_credit draws user credit error db

  unfoldable pub redeem_credited :
      AllocationDraws
      → AllocateRewardInput
      → Reward
      → User
      → AppendEntryResult
      → Client AllocationOutcome
  redeem_credited draws input reward user credit db =
      settle_allocation draws user credit
        (redeem draws.redemption (allocation_order input reward user) db)

  -- one turn of the loop
  unfoldable pub allocate_user :
      AllocationDraws → AllocateRewardInput → Reward → User → Client AllocationOutcome
  allocate_user draws input reward user = do
    credit ←
        transaction (append_entry draws.credit_id draws.now (allocation_credit input reward user))
    redeem_credited draws input reward user credit

  unfoldable pub allocate_users :
      (ℕ → AllocationDraws)
      → ℕ
      → AllocateRewardInput
      → Reward
      → List User
      → Client (List AllocationOutcome)
  allocate_users draws k input reward [] = pure []
  allocate_users draws k input reward (user ∷ users) = do
    outcome ← allocate_user (draws k) input reward user
    outcomes ← allocate_users draws (suc k) input reward users
    pure (outcome ∷ outcomes)

  unfoldable pub allocate_found :
      (ℕ → AllocationDraws) → AllocateRewardInput → Option Reward → Client (List AllocationOutcome)
  allocate_found draws input none = raise (reward_not_found input.reward_id)
  allocate_found draws input (some reward) = do
    users ← gets (λ db. select (λ u. exists (λ id. u.id == id) input.user_ids) db.users)
    allocate_users draws 0 input reward users

  unfoldable pub allocate_reward :
      (ℕ → AllocationDraws) → AllocateRewardInput → Client (List AllocationOutcome)
  allocate_reward draws input = do
    reward ← gets (λ db. find? (λ r. r.id == input.reward_id) db.rewards)
    allocate_found draws input reward
