-- ===== src/Database/Constraints.antt =====
-- What the tables refuse (packages/api/prisma/migrations): checks, unique indexes, foreign keys.
use mini_rewards_integration.Prelude.{
  String, Bool, true, not, ◌&&◌, ◌||◌, Option, none, some, List, ◌==◌, unique_eq, exists,
  if◌then◌else◌,
}
use mini_rewards_integration.Prelude.Int.{ℤ, is_negative, is_positive, fits_int4}
use mini_rewards_integration.Database.Schema.{
  TransactionType, earn, redeem, reversal, adjustment, PointTransaction, Redemption, Db,
}
use mini_rewards_integration.Database.Exec.{
  Violation, unique_violation, check_violation, foreign_key_violation, out_of_range,
}

-- point_transactions_delta_sign_matches_type
unfoldable pub sign_matches_type : TransactionType → ℤ → Bool
sign_matches_type earn delta = is_positive delta
sign_matches_type redeem delta = is_negative delta
sign_matches_type reversal delta = true
sign_matches_type adjustment delta = true

-- The column's width and the two CHECKs of point_transactions, which PostgreSQL applies to the
-- proposed row before it looks for a conflict.
unfoldable pub entry_check : PointTransaction → Option Violation
unfolding sign_matches_type
entry_check row =
    if not (fits_int4 row.delta)
    then some out_of_range
    else if not (is_positive row.delta || is_negative row.delta)
    then some check_violation
    else if sign_matches_type row.type row.delta
    then none
    else some check_violation

-- The unique index (source, external_event_id), which `ON CONFLICT` names.
abbrev pub same_event : String → Option String → PointTransaction → Bool
same_event source external_event_id t =
    t.source == source && unique_eq t.external_event_id external_event_id

-- A nullable reference: NULL refers to nothing.
abbrev pub refers_to : {A : Type 0} → (String → A → Bool) → Option String → List A → Bool
refers_to is_row none rows = true
refers_to is_row (some id) rows = exists (is_row id) rows

-- The primary key, the unique index on reverses_id, and the foreign keys of point_transactions.
unfoldable pub entry_keys : PointTransaction → Db → Option Violation
entry_keys row db =
    if exists (λ t. t.id == row.id) db.point_transactions
    then some unique_violation
    else if exists (λ t. unique_eq t.reverses_id row.reverses_id) db.point_transactions
    then some unique_violation
    else if exists (λ u. u.id == row.user_id) db.users
        && refers_to (λ id r. r.id == id) row.redemption_id db.redemptions
        && refers_to (λ id r. r.id == id) row.rule_id db.earning_rules
        && refers_to (λ id t. t.id == id) row.reverses_id db.point_transactions
    then none
    else some foreign_key_violation

-- The primary key and the foreign keys of redemptions.
unfoldable pub redemption_keys : Redemption → Db → Option Violation
redemption_keys row db =
    if exists (λ r. r.id == row.id) db.redemptions
    then some unique_violation
    else if exists (λ u. u.id == row.user_id) db.users
        && exists (λ r. r.id == row.reward_id) db.rewards
    then none
    else some foreign_key_violation
