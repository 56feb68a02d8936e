-- ===== src/Allocation/Books.antt =====
-- Allocations and the properties that the ledger keeps (packages/api/src/modules/dev/allocation.service.ts).
use mini_rewards_integration.Prelude.{ℕ, suc, String, Option, none, some, List, [], ◌∷◌}
use mini_rewards_integration.Database.Schema.{User, Reward, Db}
use mini_rewards_integration.Database.Exec.{Error, Result, ok, err}
use mini_rewards_integration.Database.Keeps.{Keeps, Preserves, Preserves-bind, preserves_rules}
use mini_rewards_integration.Ledger.{
  AppendEntryInput, AppendEntryResult, append_entry, reverse_entry,
}
use mini_rewards_integration.Ledger.Balances.{IsReconciled}
use mini_rewards_integration.Redemption.{RedemptionOutcome}
use mini_rewards_integration.Ledger.Invariant.{IsLedgerInvariant, IsReconciled-IsLedgerInvariant}
use mini_rewards_integration.Redemption.Reconciled.{redeem-Preserves}
use mini_rewards_integration.Allocation.{
  Texts, AllocationDraws, AllocateRewardInput, undo_credit, settle_allocation, redeem_credited,
  allocate_user, allocate_users, allocate_found, allocate_reward,
}

module _ (P : Db → Type 0) (laws : IsLedgerInvariant P) (texts : Texts) where
  append_law :
      (id : String) (now : ℕ) (input : AppendEntryInput) → Keeps P (append_entry id now input)
  append_law = laws.appends

  reverse_law :
      (id : String) (now : ℕ) (original_id reason : String)
      → Keeps P (reverse_entry id now original_id reason)
  reverse_law = laws.reverses

  ruleset allocation_rules = (preserves_rules, append_law, reverse_law)

  undo_credit-Preserves :
      (draws : AllocationDraws) (user : User) (credit : AppendEntryResult) (e : Error)
      → Preserves P (undo_credit texts draws user credit e)
  unfolding undo_credit
  undo_credit-Preserves draws user credit e = search allocation_rules

  settle_allocation-keeps :
      (draws : AllocationDraws) (user : User) (credit : AppendEntryResult)
      (r : Result RedemptionOutcome × Db)
      → P r.1
      → P (settle_allocation texts draws user credit r).1
  unfolding settle_allocation
  settle_allocation-keeps draws user credit (ok outcome, db) h = h
  settle_allocation-keeps draws user credit (err e, db) h =
      (undo_credit-Preserves draws user credit e).at db h

  redeem_credited-Preserves :
      (draws : AllocationDraws) (input : AllocateRewardInput) (reward : Reward) (user : User)
      (credit : AppendEntryResult)
      → Preserves P (redeem_credited texts draws input reward user credit)
  unfolding redeem_credited
  redeem_credited-Preserves draws input reward user credit = record {
    at = λ db h.
        settle_allocation-keeps draws user credit _
          ((redeem-Preserves P laws draws.redemption _).at db h);
  }

  allocate_user-Preserves :
      (draws : AllocationDraws) (input : AllocateRewardInput) (reward : Reward) (user : User)
      → Preserves P (allocate_user texts draws input reward user)
  unfolding allocate_user
  allocate_user-Preserves draws input reward user =
      search (allocation_rules, redeem_credited-Preserves)

  allocate_users-Preserves :
      (draws : ℕ → AllocationDraws) (k : ℕ) (input : AllocateRewardInput) (reward : Reward)
      (users : List User)
      → Preserves P (allocate_users texts draws k input reward users)
  unfolding allocate_users
  allocate_users-Preserves draws k input reward [] = search allocation_rules
  allocate_users-Preserves draws k input reward (user ∷ users) =
      Preserves-bind _
        (λ outcome.
          Preserves-bind _ (λ outcomes. search allocation_rules) _
            (allocate_users-Preserves draws (suc k) input reward users))
        _ (allocate_user-Preserves (draws k) input reward user)

  allocate_found-Preserves :
      (draws : ℕ → AllocationDraws) (input : AllocateRewardInput) (reward : Option Reward)
      → Preserves P (allocate_found texts draws input reward)
  unfolding allocate_found
  allocate_found-Preserves draws input none = search allocation_rules
  allocate_found-Preserves draws input (some reward) =
      search (allocation_rules, allocate_users-Preserves)

  pub allocate_reward-Preserves :
      (draws : ℕ → AllocationDraws) (input : AllocateRewardInput)
      → Preserves P (allocate_reward texts draws input)
  unfolding allocate_reward
  allocate_reward-Preserves draws input = search (allocation_rules, allocate_found-Preserves)

-- However the credits, redemptions and reversals of an allocation go, and also where it throws
-- halfway, every cached balance is still the sum of its ledger.
allocate_reward-IsReconciled :
    (texts : Texts) (draws : ℕ → AllocationDraws) (input : AllocateRewardInput) (db : Db)
    → IsReconciled db
    → IsReconciled (allocate_reward texts draws input db).1
allocate_reward-IsReconciled texts draws input =
    (allocate_reward-Preserves IsReconciled IsReconciled-IsLedgerInvariant texts draws input).at
