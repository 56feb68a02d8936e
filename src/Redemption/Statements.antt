-- ===== src/Redemption/Statements.antt =====
-- The statements that packages/api/src/modules/redemption/redemption.service.ts sends.
use mini_rewards_integration.Prelude.{
  ℕ, zero, suc, ◌+◌, ◌-◌, String, Bool, true, false, ◌&&◌, Option, none, some, ◌∷◌, ◌==◌, is_some,
  find?, exists, update_where, if◌then◌else◌,
}
use mini_rewards_integration.Database.Schema.{
  RedemptionStatus, reserved, fulfilled, failed, Reward, Redemption, Db,
}
use mini_rewards_integration.Database.Exec.{
  record_not_found, database, ok, err, Lock, acquire, Action,
}
use mini_rewards_integration.Database.Constraints.{redemption_keys}

pub record RedeemInput : Type 0 where
  pub user_id : String
  pub reward_id : String
  pub idempotency_key : String

-- The columns of a redemption that the service reads back.
pub record ReservationRow : Type 0 where
  pub id : String
  pub status : RedemptionStatus
  pub cost_points_snapshot : ℕ
  pub reward_name_snapshot : String
  pub fulfillment_ref : Option String
  pub failure_reason : Option String

abbrev pub columns : Redemption → ReservationRow
columns r = record {
  id = r.id;
  status = r.status;
  cost_points_snapshot = r.cost_points_snapshot;
  reward_name_snapshot = r.reward_name_snapshot;
  fulfillment_ref = r.fulfillment_ref;
  failure_reason = r.failure_reason;
}

-- `WHERE user_id = ... AND idempotency_key = ...`
abbrev pub has_key : String → String → Redemption → Bool
has_key user_id key r = r.user_id == user_id && r.idempotency_key == key

abbrev pub columns? : Option Redemption → Option ReservationRow
columns? none = none
columns? (some r) = some (columns r)

-- `SELECT ... FROM redemptions WHERE user_id = ... AND idempotency_key = ...`
abbrev pub row_by_key : RedeemInput → Db → Option ReservationRow
row_by_key input db = columns? (find? (has_key input.user_id input.idempotency_key) db.redemptions)

-- `SELECT ... FOR UPDATE`: a row that is found is locked.
unfoldable pub lock_found : Option ReservationRow → Action (Option ReservationRow)
lock_found none s = (ok none, s)
lock_found (some row) s =
    (ok (some row), record s { locks = acquire (Lock.redemption row.id) s.locks })

unfoldable pub select_for_update : RedeemInput → Action (Option ReservationRow)
unfolding lock_found
select_for_update input s = lock_found (row_by_key input s.db) s

-- `INSERT INTO redemptions ... ON CONFLICT (user_id, idempotency_key) DO NOTHING RETURNING ...`
unfoldable pub insert_redemption : Redemption → Action (Option ReservationRow)
insert_redemption row s =
    if exists (has_key row.user_id row.idempotency_key) s.db.redemptions
    then (ok none, s)
    else elim (redemption_keys row s.db) [
      | some v ↦ (err (database v), s)
      | none ↦ (
        ok (some (columns row)),
        record s { db = record s.db { redemptions = row ∷ s.db.redemptions } },
      )
    ]

abbrev pub stock_left : Option ℕ → Bool
stock_left none = false
stock_left (some zero) = false
stock_left (some (suc n)) = true

-- `stock - 1` and `stock + 1`; NULL stays NULL
abbrev pub one_less : Option ℕ → Option ℕ
one_less none = none
one_less (some n) = some (n - 1)

abbrev pub one_more : Option ℕ → Option ℕ
one_more none = none
one_more (some n) = some (n + 1)

-- `UPDATE rewards SET stock = stock - 1 WHERE id = ... AND stock > 0`: whether a row was affected.
unfoldable pub decrement_stock : String → Action Bool
decrement_stock reward_id s =
    let taken = λ (r : Reward). r.id == reward_id && stock_left r.stock in
    if exists taken s.db.rewards
    then (
      ok true,
      record {
        db = record s.db {
          rewards = update_where taken (λ r. record r { stock = one_less r.stock }) s.db.rewards;
        };
        locks = acquire (Lock.reward reward_id) s.locks;
      },
    )
    else (ok false, s)

-- `UPDATE rewards SET stock = stock + 1 WHERE id = ... AND stock IS NOT NULL`
unfoldable pub increment_stock : String → Action Unit
increment_stock reward_id s =
    let limited = λ (r : Reward). r.id == reward_id && is_some r.stock in
    if exists limited s.db.rewards
    then (
      ok tt,
      record {
        db = record s.db {
          rewards = update_where limited (λ r. record r { stock = one_more r.stock }) s.db.rewards;
        };
        locks = acquire (Lock.reward reward_id) s.locks;
      },
    )
    else (ok tt, s)

abbrev pub is_reserved : RedemptionStatus → Bool
is_reserved reserved = true
is_reserved fulfilled = false
is_reserved failed = false

-- `UPDATE redemptions SET status = 'FAILED', failure_reason = ... WHERE id = ... AND status =
-- 'RESERVED'`: whether a row was affected.
unfoldable pub fail_reservation : String → String → Action Bool
fail_reservation redemption_id reason s =
    let held = λ (r : Redemption). r.id == redemption_id && is_reserved r.status in
    if exists held s.db.redemptions
    then (
      ok true,
      record {
        db = record s.db {
          redemptions =
              update_where held (λ r. record r { status = failed; failure_reason = some reason })
                s.db.redemptions;
        };
        locks = acquire (Lock.redemption redemption_id) s.locks;
      },
    )
    else (ok false, s)

-- `redemption.update({ where: { id }, data: { status: 'FULFILLED', ... } })`, which throws where no
-- row has the id.
unfoldable pub record_fulfillment : String → String → ℕ → Action Unit
record_fulfillment redemption_id reference now s =
    if exists (λ r. r.id == redemption_id) s.db.redemptions
    then (
      ok tt,
      record {
        db = record s.db {
          redemptions =
              update_where (λ r. r.id == redemption_id)
                (λ r. record r {
                  status = fulfilled;
                  fulfillment_ref = some reference;
                  fulfilled_at = some now;
                })
                s.db.redemptions;
        };
        locks = acquire (Lock.redemption redemption_id) s.locks;
      },
    )
    else (err (database record_not_found), s)
