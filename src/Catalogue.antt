-- ===== src/Catalogue.antt =====
-- packages/api/src/modules/reward/reward.service.ts and packages/api/src/modules/user/user.service.ts:
-- the catalogue of rewards, and the reads of users.
pub mod Created
use mini_rewards_integration.Prelude.{
  ℕ, String, Bool, true, Option, none, some, List, [], ◌∷◌, ◌==◌, leb, map, find?, select, exists,
  if◌then◌else◌,
}
use mini_rewards_integration.Prelude.Int.{ℤ}
use mini_rewards_integration.Prelude.Sort.{sort}
use mini_rewards_integration.Database.Schema.{User, Reward, Db}
use mini_rewards_integration.Database.Exec.{
  check_violation, out_of_range, unique_violation, sku_taken, database, ok, err, Action, pure,
  raise, ◌>>=◌, ◌>>◌, query,
}
use mini_rewards_integration.Redemption.{current_balance}

pub record RewardSummary : Type 0 where
  pub id : String
  pub sku : String
  pub name : String
  pub description : String
  pub cost_points : ℕ
  pub in_stock : Bool

pub record CreateRewardInput : Type 0 where
  pub sku : String
  pub name : String
  pub description : String
  pub cost_points : ℕ
  pub stock : Option ℕ

-- `stock === null || stock > 0`
abbrev pub has_stock : Option ℕ → Bool
has_stock none = true
has_stock (some n) = leb 1 n

abbrev pub summary : Reward → RewardSummary
summary r = record {
  id = r.id;
  sku = r.sku;
  name = r.name;
  description = r.description;
  cost_points = r.cost_points;
  in_stock = has_stock r.stock;
}

-- `reward.create`: the primary key, the unique SKU, and rewards_cost_points_positive
unfoldable pub insert_reward : Reward → Action Unit
insert_reward row s =
    if leb row.cost_points 0
    then (err (database check_violation), s)
    else if exists (λ r. r.id == row.id) s.db.rewards
    then (err (database unique_violation), s)
    else if exists (λ r. r.sku == row.sku) s.db.rewards
    then (err (database unique_violation), s)
    else (ok tt, record s { db = record s.db { rewards = row ∷ s.db.rewards } })

-- `text.trim()` and `text.toUpperCase()`
module _ (trim to_upper_case : String → String) where
  -- The row of a new reward.
  abbrev pub new_reward : String → ℕ → CreateRewardInput → Reward
  new_reward id now input = record {
    id = id;
    sku = to_upper_case (trim input.sku);
    name = trim input.name;
    description = trim input.description;
    cost_points = input.cost_points;
    stock = input.stock;
    active = true;
    created_at = now;
  }

  unfoldable pub create_unless_taken : Reward → Option Reward → Action RewardSummary
  create_unless_taken row (some existing) = raise (sku_taken row.sku)
  create_unless_taken row none = do insert_reward row; pure (summary row)

  unfoldable pub create_reward : String → ℕ → CreateRewardInput → Action RewardSummary
  create_reward id now input = do
    existing ← query (λ db. find? (λ r. r.sku == to_upper_case (trim input.sku)) db.rewards)
    create_unless_taken (new_reward id now input) existing

-- ORDER BY cost_points
abbrev pub place_reward : Reward → List Reward → List Reward
place_reward r [] = r ∷ []
place_reward r (x ∷ xs) =
    let later = place_reward r xs in
    if leb r.cost_points x.cost_points then r ∷ x ∷ xs else x ∷ later

abbrev pub cheapest_first : List Reward → List Reward
cheapest_first [] = []
cheapest_first (r ∷ rs) = place_reward r (cheapest_first rs)

unfoldable pub list_rewards : Db → List RewardSummary
list_rewards db = map summary (cheapest_first (select (λ r. r.active) db.rewards))

pub record MeResponse : Type 0 where
  pub id : String
  pub external_ref : String
  pub display_name : String
  pub email : Option String
  pub balance : ℤ

abbrev pub me? : Db → Option User → Option MeResponse
me? db none = none
me? db (some user) = some (record {
  id = user.id;
  external_ref = user.external_ref;
  display_name = user.display_name;
  email = user.email;
  balance = current_balance user.id db;
})

unfoldable pub get_me : String → Db → Option MeResponse
get_me user_id db = me? db (find? (λ u. u.id == user_id) db.users)

-- What the sign-in screen shows of an account.
pub record DemoAccount : Type 0 where
  pub id : String
  pub external_ref : String
  pub display_name : String
  pub email : Option String

abbrev pub demo_account : User → DemoAccount
demo_account u = record {
  id = u.id;
  external_ref = u.external_ref;
  display_name = u.display_name;
  email = u.email;
}

-- ORDER BY display_name; `name_lt` is `<` on texts, as the database compares them.
unfoldable pub list_users : (String → String → Bool) → Db → List DemoAccount
list_users name_lt db =
    map demo_account (sort (λ u v. name_lt u.display_name v.display_name) db.users)
