-- ===== src/Ledger.antt =====
-- packages/api/src/modules/ledger/ledger.service.ts: the writes. Ids from `randomUUID` and the clock
-- are arguments.
pub mod Balances
pub mod Append
pub mod Reconciled
pub mod Contract
pub mod Idempotent
pub mod Reversal
pub mod Caught
pub mod Reconcile
pub mod Unique
pub mod Invariant
pub mod Lands
pub mod Recorded
pub mod Clawback
pub mod History
use Prim.Native.String.{◌++◌}
use mini_rewards_integration.Prelude.{
  ℕ, String, Bool, true, false, not, ◌&&◌, Option, none, some, List, ◌∷◌, ◌==◌, filter_eq,
  or_default, find?, exists, update_where, if◌then◌else◌,
}
use mini_rewards_integration.Prelude.Int.{ℤ, pos, ◌+ℤ◌, negate, abs, is_negative, fits_int4}
use mini_rewards_integration.Database.Json.{Json, text, object, end, field}
use mini_rewards_integration.Database.Schema.{
  TransactionType, reversal, PointTransaction, UserBalance, Db,
}
use mini_rewards_integration.Database.Exec.{
  Violation, foreign_key_violation, out_of_range, insufficient_points, ledger_entry_not_found,
  unexpected, database, Result, ok, err, Lock, balance, Session, acquire, Action, pure, raise,
  ◌>>=◌, ◌>>◌, query, execute, take_lock,
}
use mini_rewards_integration.Database.Constraints.{entry_check, entry_keys, same_event}

pub record AppendEntryInput : Type 0 where
  pub user_id : String
  pub delta : ℤ
  pub type : TransactionType
  pub source : String
  pub external_event_id : Option String
  pub redemption_id : Option String
  pub rule_id : Option String
  pub reverses_id : Option String
  pub description : String
  pub metadata : Option Json
  pub enforce_non_negative : Option Bool
  pub created_at : Option ℕ

pub record AppendEntryResult : Type 0 where
  pub transaction_id : String
  pub balance_after : ℤ
  pub duplicate : Bool

pub record ReverseEntryResult : Type 0 where
  pub entry : AppendEntryResult
  pub reversed : Bool

abbrev pub reversal_source : String
reversal_source = "reversal"

-- `INSERT INTO user_balances VALUES (user, 0, now) ON CONFLICT DO NOTHING`
unfoldable pub insert_balance : ℕ → String → Action Unit
insert_balance now user_id s =
    if exists (λ b. b.user_id == user_id) s.db.user_balances
    then (ok tt, s)
    else if exists (λ u. u.id == user_id) s.db.users
    then (
      ok tt,
      record s {
        db = record s.db {
          user_balances =
              record { user_id = user_id; balance = pos 0; updated_at = now } ∷ s.db.user_balances;
        };
      },
    )
    else (err (database foreign_key_violation), s)

-- `rows[0]`, and the throw where there is none
unfoldable pub balance_or_vanished : String → Option UserBalance → Action ℤ
balance_or_vanished user_id none =
    raise (unexpected ("Balance row for user " ++ user_id ++ " vanished after materialising it."))
balance_or_vanished user_id (some row) = pure row.balance

unfoldable pub lock_balance : ℕ → String → Action ℤ
lock_balance now user_id = do
  insert_balance now user_id
  take_lock (balance user_id)
  row ← query (λ db. find? (λ b. b.user_id == user_id) db.user_balances)
  balance_or_vanished user_id row

-- The row that `appendEntry` proposes.
abbrev pub proposed : String → ℕ → AppendEntryInput → PointTransaction
proposed transaction_id now input = record {
  id = transaction_id;
  user_id = input.user_id;
  delta = input.delta;
  type = input.type;
  source = input.source;
  external_event_id = input.external_event_id;
  redemption_id = input.redemption_id;
  rule_id = input.rule_id;
  reverses_id = input.reverses_id;
  description = input.description;
  metadata = input.metadata;
  created_at = or_default input.created_at now;
}

-- `INSERT INTO point_transactions ... ON CONFLICT (source, external_event_id) DO NOTHING RETURNING id`
unfoldable pub insert_entry : PointTransaction → Action (Option String)
insert_entry row s = elim (entry_check row) [
  | some v ↦ (err (database v), s)
  | none ↦
      if exists (same_event row.source row.external_event_id) s.db.point_transactions
      then (ok none, s)
      else elim (entry_keys row s.db) [
        | some v ↦ (err (database v), s)
        | none ↦ (
          ok (some row.id),
          record s { db = record s.db { point_transactions = row ∷ s.db.point_transactions } },
        )
      ]
]

-- The entry that a conflicting insert ran into.
unfoldable pub original_entry : AppendEntryInput → Option PointTransaction → Action String
original_entry input none = raise (
    unexpected (
      "Insert for ("
      ++ input.source
      ++ ", "
      ++ or_default input.external_event_id "null"
      ++ ") conflicted but no existing entry was found."
      ++ " This should be impossible under READ COMMITTED."))
original_entry input (some t) = pure t.id

-- `UPDATE user_balances SET balance = balance_after, updated_at = now() WHERE user_id = user`
unfoldable pub store_balance : ℕ → String → ℤ → Action Unit
store_balance now user_id balance_after s =
    if fits_int4 balance_after
    then (
      ok tt,
      record s {
        db = record s.db {
          user_balances =
              update_where (λ b. b.user_id == user_id)
                (λ b. record b { balance = balance_after; updated_at = now }) s.db.user_balances;
        };
      },
    )
    else (err (database out_of_range), s)

-- A debit that overdraws, where the caller has the floor enforced. A credit never does.
abbrev pub overdraws : AppendEntryInput → ℤ → Bool
overdraws input balance_after =
    or_default input.enforce_non_negative true
    && is_negative input.delta
    && is_negative balance_after

-- What follows the claim: nothing moves for a duplicate; a new entry moves the balance.
unfoldable pub settle_entry : ℕ → AppendEntryInput → ℤ → Option String → Action AppendEntryResult
settle_entry now input balance_before none = do
  original ← query (λ db.
      find? (λ t. t.source == input.source && filter_eq t.external_event_id input.external_event_id)
        db.point_transactions)
  transaction_id ← original_entry input original
  pure
      (record { transaction_id = transaction_id; balance_after = balance_before; duplicate = true })
settle_entry now input balance_before (some transaction_id) = do
  let balance_after = balance_before +ℤ input.delta
  if overdraws input balance_after
      then raise (insufficient_points input.user_id balance_before (abs input.delta))
      else do
        store_balance now input.user_id balance_after
        pure (record {
          transaction_id = transaction_id;
          balance_after = balance_after;
          duplicate = false;
        })

unfoldable pub append_entry : String → ℕ → AppendEntryInput → Action AppendEntryResult
append_entry transaction_id now input = do
  balance_before ← lock_balance now input.user_id
  inserted ← insert_entry (proposed transaction_id now input)
  settle_entry now input balance_before inserted

-- The mirror of an entry.
abbrev pub reversal_of : String → PointTransaction → String → AppendEntryInput
reversal_of original_id original reason = record {
  user_id = original.user_id;
  delta = negate original.delta;
  type = reversal;
  source = reversal_source;
  external_event_id = some original_id;
  redemption_id = original.redemption_id;
  rule_id = none;
  reverses_id = some original_id;
  description = "Reversal: " ++ reason;
  metadata = some (
      object (field "reversedTransactionId" (text original_id) (field "reason" (text reason) end)));
  enforce_non_negative = some false;
  created_at = none;
}

-- An entry found, or the throw where there is none.
unfoldable pub entry_or_missing : String → Option PointTransaction → Action PointTransaction
entry_or_missing original_id none = raise (ledger_entry_not_found original_id)
entry_or_missing original_id (some t) = pure t

unfoldable pub reverse_entry : String → ℕ → String → String → Action ReverseEntryResult
reverse_entry transaction_id now original_id reason = do
  found ← query (λ db. find? (λ t. t.id == original_id) db.point_transactions)
  original ← entry_or_missing original_id found
  result ← append_entry transaction_id now (reversal_of original_id original reason)
  pure (record { entry = result; reversed = not result.duplicate })
