-- ===== src/Redemption/Reserve.antt =====
-- Phase 1 as a whole (packages/api/src/modules/redemption/redemption.service.ts): a replay of the
-- key, a refusal, or a reservation.
use Prim.Native.String.{◌++◌}
use mini_rewards_integration.Prelude.{
  Bool, true, false, ◌≡◌, refl, subst, inl, inr, Option, none, some, [], ◌∷◌, ◌==◌, find?,
  not_exists-find, Option-cases, if◌then◌else◌,
}
use mini_rewards_integration.Database.Schema.{Reward, Redemption, Db}
use mini_rewards_integration.Database.Exec.{
  reward_unavailable, reward_inactive, raise, ok, Session, ◌>>=◌, transaction,
}
use mini_rewards_integration.Database.Constraints.{redemption_keys}
use mini_rewards_integration.Database.Ends.{Ends, Ends-bind, Ends-map, transaction-ok}
use mini_rewards_integration.Redemption.Statements.{
  RedeemInput, columns, has_key, insert_redemption,
}
use mini_rewards_integration.Redemption.Taken.{Taken, OnFresh, take-Ends}
use mini_rewards_integration.Redemption.{
  Draws, Claim, reservation, inserted_claim, claim_idempotency_key, to_replay_outcome, Reservation,
  ReserveResult, replayed, fresh, take, reserve_claimed, reserve_reward, reserve_after_prior,
  reserve,
}

-- The redemption that a key already names, if any.
abbrev pub prior : RedeemInput → Db → Option Redemption
prior input db = find? (has_key input.user_id input.idempotency_key) db.redemptions

abbrev pub listed : RedeemInput → Db → Option Reward
listed input db = find? (λ r. r.id == input.reward_id) db.rewards

-- The tables with the claim's row.
abbrev pub claimed_db : Draws → RedeemInput → Reward → Db → Db
claimed_db draws input reward db = record db {
  redemptions = reservation draws.redemption_id draws.reserved_at input reward ∷ db.redemptions;
}

-- A reservation of an active reward under a new key: the claim's row, then what `Taken` says.
pub record Reserves (draws : Draws) (input : RedeemInput) (before : Db) (result : Reservation)
    (after : Db) : Type 0 where
  pub reward : Reward
  pub found : listed input before ≡ some reward
  pub active : reward.active ≡ true
  pub new_key : prior input before ≡ none
  pub taken :
      Taken draws input reward draws.redemption_id
        (claimed_db draws input reward before)
        result
        after

-- How phase 1 may end: a replay reads and writes nothing.
abbrev pub Phase1 : Draws → RedeemInput → Db → ReserveResult → Db → Type 0
Phase1 draws input before (replayed outcome) after =
    (row : Redemption) × (prior input before ≡ some row)
    × (outcome ≡ to_replay_outcome input.user_id (columns row) before)
    × (after ≡ before)
Phase1 draws input before (fresh r) after = Reserves draws input before r after

-- Where no redemption holds the key, the claim inserts its row at once.
claim-Ends :
    (draws : Draws) (input : RedeemInput) (reward : Reward) (s : Session)
    → prior input s.db ≡ none
    → Ends
        (λ claim s'.
          (claim ≡ record {
            claimed = true;
            row = columns (reservation draws.redemption_id draws.reserved_at input reward);
          })
          × (s'.db ≡ claimed_db draws input reward s.db))
        (claim_idempotency_key draws input reward s)
unfolding claim_idempotency_key insert_redemption inserted_claim
claim-Ends draws input reward s new_key =
    let row = reservation draws.redemption_id draws.reserved_at input reward in
    let free =
      not_exists-find (has_key input.user_id input.idempotency_key) s.db.redemptions new_key in
    elim (Option-cases (redemption_keys row s.db)) [
      | inl good ↦ rw (free, good) (refl, refl)
      | inr (v, bad) ↦ rw (free, bad) tt
    ]

module _ (draws : Draws) (input : RedeemInput) (reward : Reward) (before : Db)
    (found : listed input before ≡ some reward) (active : reward.active ≡ true)
    (new_key : prior input before ≡ none) where
  fresh-Phase1 :
      (r : ReserveResult) (s : Session)
      → OnFresh
          (Taken draws input reward draws.redemption_id (claimed_db draws input reward before))
          r
          s
      → Phase1 draws input before r s.db
  fresh-Phase1 (replayed outcome) s none_so = absurd none_so
  fresh-Phase1 (fresh r) s t = record {
    reward = reward;
    found = found;
    active = active;
    new_key = new_key;
    taken = t;
  }

  reserve_claimed-Ends :
      (claim : Claim) (s : Session)
      → claim ≡ record {
        claimed = true;
        row = columns (reservation draws.redemption_id draws.reserved_at input reward);
      }
      → s.db ≡ claimed_db draws input reward before
      → Ends
          (λ r s'. Phase1 draws input before r s'.db)
          (reserve_claimed draws input reward claim.claimed claim.row s)
  unfolding reserve_claimed
  reserve_claimed-Ends claim s ec ed =
      let row = columns (reservation draws.redemption_id draws.reserved_at input reward) in
      rw ec (
        Ends-map (λ r s'. Phase1 draws input before r s'.db) (take draws input reward row s)
          (subst
            (λ d.
              Ends (OnFresh (Taken draws input reward draws.redemption_id d))
                (take draws input reward row s))
            ed (take-Ends draws input reward row s))
          fresh-Phase1)

reserve_reward-Ends :
    (draws : Draws) (input : RedeemInput) (reward : Reward) (s : Session)
    → listed input s.db ≡ some reward
    → prior input s.db ≡ none
    → Ends (λ r s'. Phase1 draws input s.db r s'.db) (reserve_reward draws input (some reward) s)
unfolding reserve_reward
reserve_reward-Ends draws input reward s found new_key = go reward.active refl
  where
    go :
        (b : Bool)
        → reward.active ≡ b
        → Ends
            (λ r s'. Phase1 draws input s.db r s'.db)
            ((if b
                then (do
                  claim ← claim_idempotency_key draws input reward
                  reserve_claimed draws input reward claim.claimed claim.row)
                else raise (
                    reward_unavailable reward_inactive (reward.name ++ " is no longer available.")))
              s)
    go false withdrawn = tt
    go true active =
        Ends-bind _ (claim_idempotency_key draws input reward) _ s
          (claim-Ends draws input reward s new_key)
          λ claim s' c.
            reserve_claimed-Ends draws input reward s.db found active new_key claim s' c.0 c.1

pub reserve-Ends :
    (draws : Draws) (input : RedeemInput) (s : Session)
    → Ends (λ r s'. Phase1 draws input s.db r s'.db) (reserve draws input s)
unfolding reserve reserve_after_prior reserve_reward
reserve-Ends draws input s = elim (Option-cases (prior input s.db)) [
  | inr (row, found) ↦ rw (found, reserve_after_prior) (row, found, refl, refl)
  | inl new_key ↦ elim (Option-cases (listed input s.db)) [
    | inl missing ↦ rw (new_key, reserve_after_prior) (rw (missing, reserve_reward) tt)
    | inr (reward, found) ↦
        rw (new_key, reserve_after_prior)
          (rw (found, reserve_reward) (reserve_reward-Ends draws input reward s found new_key))
  ]
]

-- A phase 1 that commits either replays, with every table as it was, or has taken exactly the cost,
-- the stock unit and the key of an active reward under a key that was free.
pub reserve_contract :
    (draws : Draws) (input : RedeemInput) (db : Db) {result : ReserveResult} {after : Db}
    → transaction (reserve draws input) db ≡ (ok result, after)
    → Phase1 draws input db result after
reserve_contract draws input db =
    transaction-ok (Phase1 draws input db) (reserve draws input) db
      (reserve-Ends draws input (record { db = db; locks = [] }))
