-- ===== src/Redemption/Stock.antt =====
-- The stock of a reward, taken in phase 1 and given back by the compensation
-- (packages/api/src/modules/redemption/redemption.service.ts).
use mini_rewards_integration.Prelude.{
  ℕ, zero, suc, String, true, false, ◌≡◌, refl, ap, subst, ◌∙◌, inl, inr, Option, none, some, List,
  [], ◌∷◌, ◌==◌, ◌&&◌, arith, is_some, find?, exists, exists-and, update_where, update_where-none,
  Bool-cases, Option-cases, eq_iff,
}
use mini_rewards_integration.Database.Schema.{Reward}
use mini_rewards_integration.Redemption.Statements.{stock_left, one_less, one_more}
use mini_rewards_integration.Redemption.Taken.{less, one_taken, Available}

-- The primary key of rewards: no two rows share an id.
abbrev pub IsKeyed : List Reward → Type 0
IsKeyed [] = Unit
IsKeyed (r ∷ rs) = (exists (λ x. x.id == r.id) rs ≡ false) × IsKeyed rs

abbrev pub one_given : String → List Reward → List Reward
one_given id rewards =
    update_where (λ r. r.id == id && is_some r.stock) (λ r. record r { stock = one_more r.stock })
      rewards

one_less_more : (n : Option ℕ) → stock_left n ≡ true → one_more (one_less n) ≡ n
one_less_more none h = cc
one_less_more (some zero) h = cc
one_less_more (some (suc n)) h = ground arith

left-is_some : (n : Option ℕ) → stock_left n ≡ true → is_some (one_less n) ≡ true
left-is_some none h = cc
left-is_some (some n) h = refl

-- No other row has the id of the row at the head.
no_other :
    (id : String) (x : Reward) (xs : List Reward)
    → IsKeyed (x ∷ xs)
    → (x.id == id) ≡ true
    → exists (λ r. r.id == id) xs ≡ false
no_other id x xs keyed e =
    subst (λ k. exists (λ r. r.id == k) xs ≡ false) ((eq_iff x.id id).0 e) keyed.0

limited_back :
    (id : String) (xs : List Reward)
    → IsKeyed xs
    → exists (λ r. r.id == id && stock_left r.stock) xs ≡ true
    → one_given id (less id xs) ≡ xs
limited_back id [] keyed left = refl
limited_back id (x ∷ xs) keyed left = elim (Bool-cases (x.id == id)) [
  | inr other ↦
      rw other (rw other (ap (λ ys. x ∷ ys) (limited_back id xs keyed.1 (rw other at left))))
  | inl own ↦
      let rest = no_other id x xs keyed own in
      let none_less = exists-and (λ r. r.id == id) (λ r. stock_left r.stock) xs rest in
      let none_more = exists-and (λ r. r.id == id) (λ r. is_some r.stock) xs rest in
      let some_left : stock_left x.stock ≡ true = ground (arith, left, own, none_less) in
      rw (own, some_left)
        (rw (own, left-is_some x.stock some_left)
          (rw (update_where-none _ (λ r. record r { stock = one_less r.stock }) xs none_less) (
            rw (update_where-none _ (λ r. record r { stock = one_more r.stock }) xs none_more)
              (ap (λ n. record x { stock = n } ∷ xs) (one_less_more x.stock some_left)))))
]

unlimited_none :
    (reward : Reward) (xs : List Reward)
    → IsKeyed xs
    → find? (λ r. r.id == reward.id) xs ≡ some reward
    → reward.stock ≡ none
    → exists (λ r. r.id == reward.id && is_some r.stock) xs ≡ false
unlimited_none reward [] keyed found open_ended = refl
unlimited_none reward (x ∷ xs) keyed found open_ended = elim (Bool-cases (x.id == reward.id)) [
  | inr other ↦ rw other (unlimited_none reward xs keyed.1 (rw other at found) open_ended)
  | inl own ↦
      let rest = no_other reward.id x xs keyed own in
      let none_more = exists-and (λ r. r.id == reward.id) (λ r. is_some r.stock) xs rest in
      let same : x ≡ reward = cc (rw own at found) in
      let unlimited : x.stock ≡ none = ap (λ r. r.stock) same ∙ open_ended in
      rw (own, unlimited) none_more
]

-- The reward that is found is the one whose unit is given back.
pub one_given-one_taken :
    (reward : Reward) (rewards : List Reward)
    → IsKeyed rewards
    → find? (λ r. r.id == reward.id) rewards ≡ some reward
    → Available reward rewards
    → one_given reward.id (one_taken reward rewards) ≡ rewards
one_given-one_taken reward rewards keyed found left = elim (Option-cases reward.stock) [
  | inl open_ended ↦ rw open_ended (
      update_where-none _ (λ r. record r { stock = one_more r.stock }) rewards
        (unlimited_none reward rewards keyed found open_ended))
  | inr (n, limited) ↦ rw limited (limited_back reward.id rewards keyed (left (rw limited refl)))
]
