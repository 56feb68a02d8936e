-- ===== src/Tests.antt =====
-- Concrete runs: a small shop, what the operations do in it, and each result at an input.
mod Ledger
mod History
mod Auth
mod Http
mod Web
mod Redemption
mod Earning
mod Webhook
mod Catalogue
mod Allocation
use mini_rewards_integration.Prelude.{
  ℕ, String, true, false, ◌≡◌, refl, subst, none, some, List, [], ◌∷◌,
}
use mini_rewards_integration.Prelude.Int.{ℤ, pos, ◌+ℤ◌, negate}
use mini_rewards_integration.Database.Schema.{
  user, earn, User, PointTransaction, UserBalance, EarningRule, Reward, Db,
}
use mini_rewards_integration.Database.Exec.{Result, ok, Session, Action, transaction}
use mini_rewards_integration.Database.Constraints.{entry_check, entry_keys}
use mini_rewards_integration.Ledger.Balances.{cached, ledger_sum, IsReconciled}
use mini_rewards_integration.Ledger.{
  AppendEntryInput, AppendEntryResult, proposed, insert_balance, balance_or_vanished, lock_balance,
  insert_entry, original_entry, store_balance, settle_entry, append_entry, entry_or_missing,
  reverse_entry,
}
use mini_rewards_integration.Ledger.Reconciled.{append_entry-IsReconciled}

abbrev pub ada : User
ada = record {
  id = "u1";
  external_ref = "ada";
  display_name = "Ada";
  email = none;
  password_hash = none;
  role = user;
  created_at = 0;
}

abbrev pub mug : Reward
mug = record {
  id = "r1";
  sku = "MUG";
  name = "Mug";
  description = "A mug";
  cost_points = 30;
  stock = some 1;
  active = true;
  created_at = 0;
}

abbrev pub purchase_rule : EarningRule
purchase_rule = record {
  id = "e1";
  activity_type = "PURCHASE";
  points = pos 50;
  effective_from = 0;
  effective_to = none;
  active = true;
  created_at = 0;
}

abbrev pub empty_shop : Db
empty_shop = record {
  users = ada ∷ [];
  sessions = [];
  user_balances = [];
  point_transactions = [];
  earning_rules = purchase_rule ∷ [];
  rewards = mug ∷ [];
  redemptions = [];
  webhook_deliveries = [];
}

abbrev pub purchase : AppendEntryInput
purchase = record {
  user_id = "u1";
  delta = pos 50;
  type = earn;
  source = "partner:acme";
  external_event_id = some "evt1";
  redemption_id = none;
  rule_id = some "e1";
  reverses_id = none;
  description = "Purchase";
  metadata = none;
  enforce_non_negative = none;
  created_at = none;
}

pub empty_shop-IsReconciled : IsReconciled empty_shop
unfolding cached ledger_sum
empty_shop-IsReconciled u = refl

abbrev pub earned : AppendEntryResult
earned = record { transaction_id = "t1"; balance_after = pos 50; duplicate = false }

-- A program on a database, with the ledger's operations open.
unfoldable pub ledger_run : {S A : Type 0} → (S → A) → S → A
unfolding append_entry lock_balance insert_balance balance_or_vanished insert_entry entry_check
    entry_keys settle_entry store_balance original_entry reverse_entry entry_or_missing ◌+ℤ◌ negate
ledger_run m s = m s

abbrev pub after_purchase : Db
after_purchase = record empty_shop {
  user_balances = record { user_id = "u1"; balance = pos 50; updated_at = 7 } ∷ [];
  point_transactions = proposed "t1" 7 purchase ∷ [];
}

pub run-purchase :
    transaction (append_entry "t1" 7 purchase) empty_shop ≡ (ok earned, after_purchase)
unfolding ledger_run
run-purchase = refl

pub after_purchase-IsReconciled : IsReconciled after_purchase
after_purchase-IsReconciled =
    subst (λ r. IsReconciled r.1) run-purchase
      (append_entry-IsReconciled "t1" 7 purchase empty_shop empty_shop-IsReconciled)

abbrev pub opened : Db → Session
opened db = record { db = db; locks = [] }
