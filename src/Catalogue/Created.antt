-- ===== src/Catalogue/Created.antt =====
-- The creation of a reward (packages/api/src/modules/reward/reward.service.ts).
use mini_rewards_integration.Prelude.{
  ℕ, zero, suc, ◌≤◌, String, Bool, true, false, ◌≡◌, ◌↔◌, ◌⊎◌, refl, inl, inr, Option, none, some,
  List, [], ◌∷◌, ◌==◌, ◌&&◌, ◌||◌, leb, map, length, find?, exists, not_exists-find, find-some,
  find-none, arith, eq_refl, Bool-cases, Option-cases,
}
use mini_rewards_integration.Database.Schema.{Reward, Db}
use mini_rewards_integration.Database.Exec.{Session, ok, err, sku_taken, transaction}
use mini_rewards_integration.Database.Ends.{Ends, transaction-ok}
use mini_rewards_integration.Catalogue.{
  list_rewards, place_reward, has_stock, RewardSummary, CreateRewardInput, summary, insert_reward,
  new_reward, create_unless_taken, create_reward,
}

-- No two rewards share a SKU.
abbrev pub HasUniqueSkus : List Reward → Type 0
HasUniqueSkus [] = Unit
HasUniqueSkus (r ∷ rs) = (exists (λ x. x.sku == r.sku) rs ≡ false) × HasUniqueSkus rs

-- What a creation that commits did.
abbrev pub Created :
    (String → String)
    → (String → String)
    → String
    → ℕ
    → CreateRewardInput
    → Db
    → RewardSummary
    → Db
    → Type 0
Created trim to_upper_case id now input before made after =
    (made ≡ summary (new_reward trim to_upper_case id now input))
    × (after
        ≡ record before { rewards = new_reward trim to_upper_case id now input ∷ before.rewards })
    × (exists (λ r. r.sku == to_upper_case (trim input.sku)) before.rewards ≡ false)

module _ (trim to_upper_case : String → String) where
  create_reward-Created :
      (id : String) (now : ℕ) (input : CreateRewardInput) (s : Session)
      → Ends
          (λ made s'. Created trim to_upper_case id now input s.db made s'.db)
          (create_reward trim to_upper_case id now input s)
  unfolding create_reward create_unless_taken insert_reward
  create_reward-Created id now input s =
      let sku = to_upper_case (trim input.sku) in
      elim (Option-cases (find? (λ r. r.sku == sku) s.db.rewards)) [
        | inr (r, taken) ↦ rw taken tt
        | inl free ↦
            let unused = not_exists-find (λ r. r.sku == sku) s.db.rewards free in
            elim (Bool-cases (leb input.cost_points 0)) [
              | inl costless ↦ rw (free, create_unless_taken) (rw costless tt)
              | inr priced ↦ elim (Bool-cases (exists (λ r. r.id == id) s.db.rewards)) [
                | inl used ↦ rw (free, create_unless_taken) (rw (priced, used) tt)
                | inr fresh ↦
                    rw (free, create_unless_taken) (rw (priced, fresh, unused) (refl, refl, unused))
              ]
            ]
      ]

-- A creation that commits adds the one reward that it reports; SKUs that were unique stay so.
create_reward_contract :
    (trim to_upper_case : String → String) (id : String) (now : ℕ) (input : CreateRewardInput)
    (db : Db) {made : RewardSummary} {after : Db}
    → HasUniqueSkus db.rewards
    → transaction (create_reward trim to_upper_case id now input) db ≡ (ok made, after)
    → Created trim to_upper_case id now input db made after × HasUniqueSkus after.rewards
create_reward_contract trim to_upper_case id now input db unique done =
    let c =
      transaction-ok (Created trim to_upper_case id now input db)
        (create_reward trim to_upper_case id now input) db
        (create_reward-Created trim to_upper_case id now input (record { db = db; locks = [] }))
        done in
    (c, rw c.1 (c.2, unique))

exists-place_reward :
    (p : Reward → Bool) (r : Reward) (rs : List Reward)
    → exists p (place_reward r rs) ≡ (p r || exists p rs)
exists-place_reward p r [] = refl
exists-place_reward p r (x ∷ xs) = ground (arith, exists-place_reward p r xs)

exists-summary :
    (p : RewardSummary → Bool) (rs : List Reward)
    → exists p (map summary rs) ≡ exists (λ r. p (summary r)) rs
exists-summary p [] = refl
exists-summary p (r ∷ rs) = rw (exists-summary p rs) refl

-- An active reward at the head of the table is in the catalogue.
list_rewards-new :
    (p : RewardSummary → Bool) (row : Reward) (db : Db)
    → row.active ≡ true
    → p (summary row) ≡ true
    → exists p (list_rewards (record db { rewards = row ∷ db.rewards })) ≡ true
unfolding list_rewards
list_rewards-new p row db shown holds =
    rw shown (rw exists-summary (rw exists-place_reward (rw holds refl)))

-- A new reward, with a price above zero and an id that is not in use. Where its SKU, trimmed and in
-- upper case, is taken, the creation is refused with the error that names this SKU, and not by the
-- database's index, and nothing changes. Where it is not, the creation commits: it reports a reward of
-- this id, SKU, trimmed name and price, which is in stock unless the stock given is zero; the table of
-- rewards grows by one row, SKUs stay unique, and the catalogue lists the reward from then on.
pub create_reward_ends :
    (trim to_upper_case : String → String) (id : String) (now : ℕ) (input : CreateRewardInput)
    (db : Db)
    → HasUniqueSkus db.rewards
    → 1 ≤ input.cost_points
    → exists (λ r. r.id == id) db.rewards ≡ false
    → let sku = to_upper_case (trim input.sku) in
      let end = transaction (create_reward trim to_upper_case id now input) db in
      ((exists (λ r. r.sku == sku) db.rewards ≡ true) × (end ≡ (err (sku_taken sku), db)))
      ⊎ ((exists (λ r. r.sku == sku) db.rewards ≡ false)
          × (made : RewardSummary) × (end.0 ≡ ok made)
          × (made.id ≡ id)
          × (made.sku ≡ sku)
          × (made.name ≡ trim input.name)
          × (made.cost_points ≡ input.cost_points)
          × ((made.in_stock ≡ false) ↔ (input.stock ≡ some 0))
          × (length end.1.rewards ≡ suc (length db.rewards))
          × HasUniqueSkus end.1.rewards
          × (exists (λ x. x.id == id && x.sku == sku) (list_rewards end.1) ≡ true))
unfolding create_reward create_unless_taken insert_reward
create_reward_ends trim to_upper_case id now input db unique priced fresh =
    let sku = to_upper_case (trim input.sku) in
    let row = new_reward trim to_upper_case id now input in
    let costs : leb input.cost_points 0 ≡ false = ground arith in
    elim (Bool-cases (exists (λ r. r.sku == sku) db.rewards)) [
      | inl taken ↦
          let (r, found) = find-some (λ x. x.sku == sku) db.rewards taken in
          inl (taken, rw (found, create_unless_taken) refl)
      | inr free ↦
          let none_found = find-none (λ x. x.sku == sku) db.rewards free in
          rw (none_found, create_unless_taken)
            (rw (costs, fresh, free)
              (inr (
                refl,
                summary row,
                refl,
                refl,
                refl,
                refl,
                refl,
                out_of_stock input.stock,
                refl,
                (free, unique),
                list_rewards-new (λ x. x.id == id && x.sku == sku) row db refl
                    (rw (eq_refl id, eq_refl sku) refl),
              )))
    ]
  where
    out_of_stock : (stock : Option ℕ) → (has_stock stock ≡ false) ↔ (stock ≡ some 0)
    out_of_stock none = (λ h. cc, λ h. cc)
    out_of_stock (some zero) = (λ h. refl, λ h. refl)
    out_of_stock (some (suc n)) = (λ h. ground arith, λ h. cc)
