-- ===== src/Redemption/Reconciled.antt =====
-- `redeem` and the cached balances (packages/api/src/modules/redemption/redemption.service.ts).
use mini_rewards_integration.Database.Schema.{Db}
use mini_rewards_integration.Database.Keeps.{Keeps, Preserves, preserves_rules}
use mini_rewards_integration.Prelude.{ℕ, String}
use mini_rewards_integration.Ledger.Invariant.{IsLedgerInvariant, IsReconciled-IsLedgerInvariant}
use mini_rewards_integration.Ledger.Balances.{IsReconciled}
use mini_rewards_integration.Redemption.Fulfillment.{FulfillmentResult, issued, declined}
use mini_rewards_integration.Redemption.Statements.{RedeemInput, record_fulfillment}
use mini_rewards_integration.Redemption.Books.{
  record_fulfillment-Keeps, reserve-Keeps, compensate-Keeps,
}
use mini_rewards_integration.Redemption.{
  Draws, Reservation, ReserveResult, replayed, fresh, reserve, compensate, settle, after_reserve,
  redeem,
}

module _ (P : Db → Type 0) (laws : IsLedgerInvariant P) where
  fulfillment_law :
      (id reference : String) (now : ℕ) → Keeps P (record_fulfillment id reference now)
  fulfillment_law = record_fulfillment-Keeps P laws

  reserve_law : (draws : Draws) (input : RedeemInput) → Keeps P (reserve draws input)
  reserve_law = reserve-Keeps P laws

  compensate_law :
      (draws : Draws) (reservation : Reservation) (reason : String)
      → Keeps P (compensate draws reservation reason)
  compensate_law = compensate-Keeps P laws

  ruleset phases = (preserves_rules, fulfillment_law, reserve_law, compensate_law)

  settle-Preserves :
      (draws : Draws) (input : RedeemInput) (reservation : Reservation) (answer : FulfillmentResult)
      → Preserves P (settle draws input reservation answer)
  unfolding settle
  settle-Preserves draws input reservation (issued reference) = search phases
  settle-Preserves draws input reservation (declined reason) = search phases

  after_reserve-Preserves :
      (draws : Draws) (input : RedeemInput) (result : ReserveResult)
      → Preserves P (after_reserve draws input result)
  unfolding after_reserve
  after_reserve-Preserves draws input (replayed outcome) = search phases
  after_reserve-Preserves draws input (fresh reservation) =
      settle-Preserves draws input reservation _

  pub redeem-Preserves : (draws : Draws) (input : RedeemInput) → Preserves P (redeem draws input)
  unfolding redeem
  redeem-Preserves draws input = search (phases, after_reserve-Preserves)

-- Whatever a redemption meets, a refusal, a replay, a provider's failure or a throw in its second
-- phase, every cached balance is still the sum of its ledger.
pub redeem-IsReconciled :
    (draws : Draws) (input : RedeemInput) (db : Db)
    → IsReconciled db
    → IsReconciled (redeem draws input db).1
redeem-IsReconciled draws input =
    (redeem-Preserves IsReconciled IsReconciled-IsLedgerInvariant draws input).at
