-- ===== src/Tests/Catalogue.antt =====
-- A reward that is added to the catalogue, and the result at it.
use mini_rewards_integration.Prelude.{
  String, true, false, ◌≡◌, ◌↔◌, ◌⊎◌, arith, ◌==◌, ◌&&◌, refl, none, some, exists, length,
}
use mini_rewards_integration.Database.Schema.{Db}
use mini_rewards_integration.Database.Exec.{ok, err, sku_taken, transaction}
use mini_rewards_integration.Catalogue.{
  RewardSummary, CreateRewardInput, create_reward, list_rewards,
}
use mini_rewards_integration.Catalogue.Created.{HasUniqueSkus, create_reward_ends}
use mini_rewards_integration.Tests.{empty_shop}

abbrev verbatim : String → String
verbatim s = s

abbrev coffee : CreateRewardInput
coffee = record {
  sku = "COFFEE";
  name = "Coffee";
  description = "A cup";
  cost_points = 10;
  stock = none;
}

abbrev after_creation : Db
after_creation = (transaction (create_reward verbatim verbatim "r2" 9 coffee) empty_shop).1

create_reward_ends_example :
    ((exists (λ r. r.sku == "COFFEE") empty_shop.rewards ≡ true)
      × (transaction (create_reward verbatim verbatim "r2" 9 coffee) empty_shop
          ≡ (err (sku_taken "COFFEE"), empty_shop)))
    ⊎ ((exists (λ r. r.sku == "COFFEE") empty_shop.rewards ≡ false)
        × (made : RewardSummary) × ((transaction
              (create_reward verbatim verbatim "r2" 9 coffee)
              empty_shop).0
            ≡ ok made)
        × (made.id ≡ "r2")
        × (made.sku ≡ "COFFEE")
        × (made.name ≡ "Coffee")
        × (made.cost_points ≡ 10)
        × ((made.in_stock ≡ false) ↔ (coffee.stock ≡ some 0))
        × (length after_creation.rewards ≡ 2)
        × HasUniqueSkus after_creation.rewards
        × (exists (λ x. x.id == "r2" && x.sku == "COFFEE") (list_rewards after_creation) ≡ true))
create_reward_ends_example =
    create_reward_ends verbatim verbatim "r2" 9 coffee empty_shop (refl, tt) (omega arith) refl
