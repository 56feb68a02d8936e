-- ===== src/Redemption/Books.antt =====
-- The statements and phases of a redemption, and the properties that the ledger keeps
-- (packages/api/src/modules/redemption/redemption.service.ts).
use mini_rewards_integration.Prelude.{
  ℕ, String, Bool, true, false, refl, inl, inr, Option, none, some, ◌==◌, ◌&&◌, is_some, exists,
  Bool-cases, Option-cases,
}
use mini_rewards_integration.Database.Schema.{Reward, Redemption, Db}
use mini_rewards_integration.Database.Constraints.{redemption_keys}
use mini_rewards_integration.Database.Keeps.{Keeps, keeps_rules}
use mini_rewards_integration.Ledger.Invariant.{IsLedgerInvariant}
use mini_rewards_integration.Ledger.{AppendEntryInput, lock_balance, append_entry, reverse_entry}
use mini_rewards_integration.Redemption.Statements.{
  RedeemInput, ReservationRow, has_key, stock_left, is_reserved, row_by_key, lock_found,
  select_for_update, insert_redemption, decrement_stock, increment_stock, fail_reservation,
  record_fulfillment,
}
use mini_rewards_integration.Redemption.{
  Draws, settled_claim, retried_claim, waited_claim, inserted_claim, claim_idempotency_key,
  Reservation, taken_or_out, take_stock, take, reserve_claimed, reserve_reward, reserve_after_prior,
  reserve, compensate_claimed, compensate,
}

module _ (P : Db → Type 0) (laws : IsLedgerInvariant P) where
  lock_found-Keeps : (o : Option ReservationRow) → Keeps P (lock_found o)
  unfolding lock_found
  lock_found-Keeps none = record { at = λ s h. h }
  lock_found-Keeps (some row) = record { at = λ s h. h }

  select_for_update-Keeps : (input : RedeemInput) → Keeps P (select_for_update input)
  unfolding select_for_update
  select_for_update-Keeps input = record {
    at = λ s. (lock_found-Keeps (row_by_key input s.db)).at s;
  }

  insert_redemption-Keeps : (row : Redemption) → Keeps P (insert_redemption row)
  unfolding insert_redemption
  insert_redemption-Keeps row = record {
    at = λ s h.
        elim (Bool-cases (exists (has_key row.user_id row.idempotency_key) s.db.redemptions)) [
          | inl taken ↦ rw taken h
          | inr free ↦ elim (Option-cases (redemption_keys row s.db)) [
            | inl good ↦ rw (free, good) (laws.apart s.db _ refl refl h)
            | inr (v, bad) ↦ rw (free, bad) tt
          ]
        ];
  }

  decrement_stock-Keeps : (id : String) → Keeps P (decrement_stock id)
  unfolding decrement_stock
  decrement_stock-Keeps id = record {
    at = λ s h. elim (Bool-cases (exists (λ r. r.id == id && stock_left r.stock) s.db.rewards)) [
      | inl left ↦ rw left (laws.apart s.db _ refl refl h)
      | inr sold_out ↦ rw sold_out h
    ];
  }

  increment_stock-Keeps : (id : String) → Keeps P (increment_stock id)
  unfolding increment_stock
  increment_stock-Keeps id = record {
    at = λ s h. elim (Bool-cases (exists (λ r. r.id == id && is_some r.stock) s.db.rewards)) [
      | inl limited ↦ rw limited (laws.apart s.db _ refl refl h)
      | inr unlimited ↦ rw unlimited h
    ];
  }

  fail_reservation-Keeps : (id reason : String) → Keeps P (fail_reservation id reason)
  unfolding fail_reservation
  fail_reservation-Keeps id reason = record {
    at = λ s h.
        elim (Bool-cases (exists (λ r. r.id == id && is_reserved r.status) s.db.redemptions)) [
          | inl held ↦ rw held (laws.apart s.db _ refl refl h)
          | inr gone ↦ rw gone h
        ];
  }

  pub record_fulfillment-Keeps :
      (id reference : String) (now : ℕ) → Keeps P (record_fulfillment id reference now)
  unfolding record_fulfillment
  record_fulfillment-Keeps id reference now = record {
    at = λ s h. elim (Bool-cases (exists (λ r. r.id == id) s.db.redemptions)) [
      | inl known ↦ rw known (laws.apart s.db _ refl refl h)
      | inr missing ↦ rw missing tt
    ];
  }

  lock_balance-Keeps : (now : ℕ) (u : String) → Keeps P (lock_balance now u)
  lock_balance-Keeps = laws.locks

  append_entry-Keeps :
      (id : String) (now : ℕ) (input : AppendEntryInput) → Keeps P (append_entry id now input)
  append_entry-Keeps = laws.appends

  reverse_entry-Keeps :
      (id : String) (now : ℕ) (original_id reason : String)
      → Keeps P (reverse_entry id now original_id reason)
  reverse_entry-Keeps = laws.reverses

  ruleset books_rules = (
    keeps_rules, select_for_update-Keeps, insert_redemption-Keeps, decrement_stock-Keeps,
    increment_stock-Keeps, fail_reservation-Keeps, record_fulfillment-Keeps, lock_balance-Keeps,
    append_entry-Keeps, reverse_entry-Keeps,
  )

  settled_claim-Keeps :
      (input : RedeemInput) (o : Option ReservationRow) → Keeps P (settled_claim input o)
  unfolding settled_claim
  settled_claim-Keeps input none = search books_rules
  settled_claim-Keeps input (some row) = search books_rules

  retried_claim-Keeps :
      (input : RedeemInput) (o : Option ReservationRow) → Keeps P (retried_claim input o)
  unfolding retried_claim
  retried_claim-Keeps input none = search (books_rules, settled_claim-Keeps)
  retried_claim-Keeps input (some row) = search books_rules

  waited_claim-Keeps :
      (draws : Draws) (input : RedeemInput) (reward : Reward) (o : Option ReservationRow)
      → Keeps P (waited_claim draws input reward o)
  unfolding waited_claim
  waited_claim-Keeps draws input reward none = search (books_rules, retried_claim-Keeps)
  waited_claim-Keeps draws input reward (some row) = search books_rules

  inserted_claim-Keeps :
      (draws : Draws) (input : RedeemInput) (reward : Reward) (o : Option ReservationRow)
      → Keeps P (inserted_claim draws input reward o)
  unfolding inserted_claim
  inserted_claim-Keeps draws input reward none = search (books_rules, waited_claim-Keeps)
  inserted_claim-Keeps draws input reward (some row) = search books_rules

  claim-Keeps :
      (draws : Draws) (input : RedeemInput) (reward : Reward)
      → Keeps P (claim_idempotency_key draws input reward)
  unfolding claim_idempotency_key
  claim-Keeps draws input reward = search (books_rules, inserted_claim-Keeps)

  taken_or_out-Keeps : (reward : Reward) (b : Bool) → Keeps P (taken_or_out reward b)
  unfolding taken_or_out
  taken_or_out-Keeps reward true = search books_rules
  taken_or_out-Keeps reward false = search books_rules

  take_stock-Keeps : (reward : Reward) (o : Option ℕ) → Keeps P (take_stock reward o)
  unfolding take_stock
  take_stock-Keeps reward none = search books_rules
  take_stock-Keeps reward (some n) = search (books_rules, taken_or_out-Keeps)

  take-Keeps :
      (draws : Draws) (input : RedeemInput) (reward : Reward) (row : ReservationRow)
      → Keeps P (take draws input reward row)
  unfolding take
  take-Keeps draws input reward row = search (books_rules, take_stock-Keeps)

  reserve_claimed-Keeps :
      (draws : Draws) (input : RedeemInput) (reward : Reward) (b : Bool) (row : ReservationRow)
      → Keeps P (reserve_claimed draws input reward b row)
  unfolding reserve_claimed
  reserve_claimed-Keeps draws input reward true row = take-Keeps draws input reward row
  reserve_claimed-Keeps draws input reward false row = search books_rules

  reserve_reward-Keeps :
      (draws : Draws) (input : RedeemInput) (o : Option Reward)
      → Keeps P (reserve_reward draws input o)
  unfolding reserve_reward
  reserve_reward-Keeps draws input none = search books_rules
  reserve_reward-Keeps draws input (some reward) =
      search (books_rules, claim-Keeps, reserve_claimed-Keeps)

  reserve_after_prior-Keeps :
      (draws : Draws) (input : RedeemInput) (o : Option ReservationRow)
      → Keeps P (reserve_after_prior draws input o)
  unfolding reserve_after_prior
  reserve_after_prior-Keeps draws input none = search (books_rules, reserve_reward-Keeps)
  reserve_after_prior-Keeps draws input (some row) = search books_rules

  pub reserve-Keeps : (draws : Draws) (input : RedeemInput) → Keeps P (reserve draws input)
  unfolding reserve
  reserve-Keeps draws input = search (books_rules, reserve_after_prior-Keeps)

  compensate_claimed-Keeps :
      (draws : Draws) (reservation : Reservation) (reason : String) (b : Bool)
      → Keeps P (compensate_claimed draws reservation reason b)
  unfolding compensate_claimed
  compensate_claimed-Keeps draws reservation reason true = search books_rules
  compensate_claimed-Keeps draws reservation reason false = search books_rules

  pub compensate-Keeps :
      (draws : Draws) (reservation : Reservation) (reason : String)
      → Keeps P (compensate draws reservation reason)
  unfolding compensate
  compensate-Keeps draws reservation reason = search (books_rules, compensate_claimed-Keeps)
