-- ===== src/Redemption/Fulfillment.antt =====
-- packages/api/src/modules/redemption/fulfillment.ts. What `Math.random`, the configured failure
-- rate and `randomUUID` give are arguments; the two probabilities are naturals on one scale.
use Prim.Native.String.{◌++◌}
use mini_rewards_integration.Prelude.{ℕ, String, ltb, if◌then◌else◌}

pub data FulfillmentResult : Type 0 where
  issued : String → FulfillmentResult
  declined : String → FulfillmentResult

pub record FulfillmentRequest : Type 0 where
  pub redemption_id : String
  pub reward_sku : String
  pub user_external_ref : String

unfoldable pub fulfill : ℕ → ℕ → String → FulfillmentRequest → FulfillmentResult
fulfill random failure_rate uuid request =
    if ltb random failure_rate
    then declined ("Fulfilment provider rejected " ++ request.reward_sku ++ " (simulated failure).")
    else issued ("sim_" ++ uuid)
