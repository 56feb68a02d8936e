-- ===== src/Redemption/Taken.antt =====
-- What phase 1 takes (packages/api/src/modules/redemption/redemption.service.ts): the points, the
-- stock unit, the key.
use mini_rewards_integration.Prelude.{
  ℕ, String, true, false, ◌≡◌, refl, ap, ◌∙◌, inl, inr, Option, none, some, List, ◌∷◌, ◌==◌, ◌&&◌,
  ◌||◌, arith, exists, update_where, is_some, Bool-cases,
}
use mini_rewards_integration.Prelude.Int.{pos, ◌+ℤ◌, negate, is_negative}
use mini_rewards_integration.Database.Schema.{Reward, Db}
use mini_rewards_integration.Database.Exec.{Session}
use mini_rewards_integration.Database.Constraints.{entry_check, sign_matches_type}
use mini_rewards_integration.Database.Ends.{Ends, Ends-bind}
use mini_rewards_integration.Ledger.{AppendEntryResult, proposed, lock_balance, append_entry}
use mini_rewards_integration.Ledger.Balances.{
  cached, materialised, has_row, is_user, cached-materialised, rewards-materialised,
  redemptions-materialised, lock_balance_lem,
}
use mini_rewards_integration.Ledger.Append.{ledger-materialised}
use mini_rewards_integration.Ledger.Contract.{Moves, append_entry-Moves}
use mini_rewards_integration.Redemption.Statements.{
  RedeemInput, ReservationRow, stock_left, one_less, decrement_stock,
}
use mini_rewards_integration.Redemption.{
  Draws, debit, Reservation, ReserveResult, replayed, fresh, taken_or_out, take_stock, take,
}

-- The rewards once a unit of one is gone; an unlimited one keeps no count.
abbrev pub less : String → List Reward → List Reward
less id rewards =
    update_where (λ r. r.id == id && stock_left r.stock)
      (λ r. record r { stock = one_less r.stock }) rewards

abbrev pub less_if : Option ℕ → String → List Reward → List Reward
less_if none id rewards = rewards
less_if (some n) id rewards = less id rewards

abbrev pub one_taken : Reward → List Reward → List Reward
one_taken reward rewards = less_if reward.stock reward.id rewards

-- A limited reward has a unit left.
abbrev pub Available : Reward → List Reward → Type 0
Available reward rewards =
    is_some reward.stock ≡ true
    → exists (λ r. r.id == reward.id && stock_left r.stock) rewards ≡ true

take_stock-Ends :
    (reward : Reward) (read : Option ℕ) (s : Session)
    → reward.stock ≡ read
    → Ends
        (λ done s'.
          (s'.db ≡ record s.db { rewards = one_taken reward s.db.rewards })
          × Available reward s.db.rewards)
        (take_stock reward read s)
unfolding take_stock taken_or_out decrement_stock
take_stock-Ends reward none s same = (rw same, λ h. cc)
take_stock-Ends reward (some n) s same =
    elim (Bool-cases (exists (λ r. r.id == reward.id && stock_left r.stock) s.db.rewards)) [
      | inl left ↦ rw left (rw same, λ limited. refl)
      | inr sold_out ↦ rw sold_out tt
    ]

lock_balance-Ends :
    (now : ℕ) (u : String) (s : Session)
    → Ends (λ b s'. s'.db ≡ materialised now u s.db) (lock_balance now u s)
lock_balance-Ends now u s =
    rw lock_balance_lem (elim (Bool-cases (has_row u s.db || is_user u s.db)) [
      | inl known ↦ rw known refl
      | inr unknown ↦ rw unknown tt
    ])

-- `result` and `after` are what `take` makes of `before`.
pub record Taken (draws : Draws) (input : RedeemInput) (reward : Reward) (redemption_id : String)
    (before : Db) (result : Reservation) (after : Db) : Type 0 where
  -- the cost is debited, and was covered
  pub debited :
      cached input.user_id after.user_balances
      ≡ cached input.user_id before.user_balances +ℤ negate (pos reward.cost_points)
  pub covered : is_negative (cached input.user_id after.user_balances) ≡ false
  pub others :
      (v : String)
      → (input.user_id == v) ≡ false
      → cached v after.user_balances ≡ cached v before.user_balances
  pub ledger :
      after.point_transactions
      ≡ proposed draws.entry_id draws.reserved_at (debit input reward redemption_id)
        ∷ before.point_transactions
  -- a limited reward had a unit, and has one less
  pub available : Available reward before.rewards
  pub stock : after.rewards ≡ one_taken reward before.rewards
  pub redemptions : after.redemptions ≡ before.redemptions
  -- phase 2 is told so
  pub handed : result ≡ record {
    redemption_id = redemption_id;
    ledger_entry_id = draws.entry_id;
    reward_id = reward.id;
    reward_sku = reward.sku;
    reward_name = reward.name;
    cost_points = reward.cost_points;
    balance_after = cached input.user_id after.user_balances;
  }

-- The result is a fresh reservation, of which `Q` holds.
abbrev pub OnFresh : (Reservation → Db → Type 0) → ReserveResult → Session → Type 0
OnFresh Q (replayed outcome) s = ⊥
OnFresh Q (fresh r) s = Q r s.db

module _ (draws : Draws) (input : RedeemInput) (reward : Reward) (redemption_id : String)
    (before at_lock mid after : Db) (entry : AppendEntryResult)
    (e1 : at_lock ≡ materialised draws.reserved_at input.user_id before)
    (e2 : mid ≡ record at_lock { rewards = one_taken reward at_lock.rewards })
    (left : Available reward at_lock.rewards)
    (m : Moves draws.entry_id draws.reserved_at
      (debit input reward redemption_id)
      mid
      entry
      after) where
  new_entry : entry.duplicate ≡ false
  new_entry = m.keyless refl

  mid_cached : (v : String) → cached v mid.user_balances ≡ cached v before.user_balances
  mid_cached v =
      ap (λ d. cached v d.user_balances) e2
      ∙ (ap (λ d. cached v d.user_balances) e1
          ∙ cached-materialised v input.user_id draws.reserved_at before)

  lock_rewards : at_lock.rewards ≡ before.rewards
  lock_rewards =
      ap (λ d. d.rewards) e1 ∙ rewards-materialised draws.reserved_at input.user_id before

  covered_after : is_negative (cached input.user_id after.user_balances) ≡ false
  unfolding entry_check sign_matches_type
  covered_after = ground (arith, m.reported, m.covered new_entry, m.fine)

  taken :
      Taken draws input reward redemption_id before
        (record {
          redemption_id = redemption_id;
          ledger_entry_id = entry.transaction_id;
          reward_id = reward.id;
          reward_sku = reward.sku;
          reward_name = reward.name;
          cost_points = reward.cost_points;
          balance_after = entry.balance_after;
        })
        after
  taken = record {
    debited = m.reported ∙ (m.amount ∙ rw (new_entry, mid_cached));
    covered = covered_after;
    others = λ v ne. m.others v ne ∙ mid_cached v;
    ledger =
        m.ledger
        ∙ rw new_entry (
            ap
              (λ ts.
                proposed draws.entry_id draws.reserved_at (debit input reward redemption_id) ∷ ts)
              (ap (λ d. d.point_transactions) e2
                ∙ (ap (λ d. d.point_transactions) e1
                    ∙ ledger-materialised draws.reserved_at input.user_id before)));
    available = rw (← lock_rewards) left;
    stock = ap (λ d. d.rewards) m.elsewhere ∙ (ap (λ d. d.rewards) e2 ∙ rw lock_rewards);
    redemptions =
        ap (λ d. d.redemptions) m.elsewhere
        ∙ (ap (λ d. d.redemptions) e2
            ∙ (ap (λ d. d.redemptions) e1
                ∙ redemptions-materialised draws.reserved_at input.user_id before));
    handed = rw (m.named new_entry, m.reported);
  }

pub take-Ends :
    (draws : Draws) (input : RedeemInput) (reward : Reward) (row : ReservationRow) (s : Session)
    → Ends (OnFresh (Taken draws input reward row.id s.db)) (take draws input reward row s)
unfolding take
take-Ends draws input reward row s =
    Ends-bind _ (lock_balance draws.reserved_at input.user_id) _ s
      (lock_balance-Ends draws.reserved_at input.user_id s)
      λ b s1 e1.
        Ends-bind _ (take_stock reward reward.stock) _ s1
          (take_stock-Ends reward reward.stock s1 refl)
          λ done s2 e2.
            Ends-bind _ (append_entry draws.entry_id draws.reserved_at (debit input reward row.id))
              _ s2
              (append_entry-Moves draws.entry_id draws.reserved_at (debit input reward row.id) s2)
              λ entry s3 m.
                taken draws input reward row.id s.db s1.db s2.db s3.db entry e1 e2.0 e2.1 m
