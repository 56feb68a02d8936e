-- ===== src/Tests/Ledger.antt =====
-- The ledger's results at a purchase, its retry, its reversal, and an overdraft.
use mini_rewards_integration.Prelude.{
  String, true, false, ◌≡◌, ◌↔◌, refl, some, none, [], ◌∷◌, ◌==◌, or_default, if◌then◌else◌,
}
use mini_rewards_integration.Prelude.Int.{pos, negsuc, ◌+ℤ◌, negate, is_negative, abs}
use mini_rewards_integration.Database.Schema.{redeem, PointTransaction, Db}
use mini_rewards_integration.Database.Exec.{ok, err, insufficient_points, Session, transaction}
use mini_rewards_integration.Database.Constraints.{entry_keys}
use mini_rewards_integration.Ledger.{
  AppendEntryInput, ReverseEntryResult, proposed, append_entry, reverse_entry, reversal_of,
  reversal_source,
}
use mini_rewards_integration.Ledger.Balances.{cached, IsReconciled}
use mini_rewards_integration.Ledger.Reconciled.{append_entry-IsReconciled}
use mini_rewards_integration.Ledger.Contract.{
  Moves, append_entry_contract, append_entry_floor, append_entry_refuses,
}
use mini_rewards_integration.Ledger.Append.{holder}
use mini_rewards_integration.Ledger.Lands.{landing, append_entry_lands}
use mini_rewards_integration.Ledger.Reversal.{entry_of, reverse_entry_undoes}
use mini_rewards_integration.Ledger.Clawback.{reverse_entry_lands, clawback}
use mini_rewards_integration.Ledger.Caught.{caught_overdraft_unbalanced}
use mini_rewards_integration.Ledger.Reconcile.{AllBalanced, reconcile, reconcile_healthy}
use mini_rewards_integration.Tests.{
  empty_shop, purchase, empty_shop-IsReconciled, earned, ledger_run, after_purchase, run-purchase,
  opened,
}

append_entry-IsReconciled_example :
    IsReconciled (transaction (append_entry "t1" 7 purchase) empty_shop).1
append_entry-IsReconciled_example =
    append_entry-IsReconciled "t1" 7 purchase empty_shop empty_shop-IsReconciled

append_entry_contract_example : Moves "t1" 7 purchase empty_shop earned after_purchase
append_entry_contract_example = append_entry_contract "t1" 7 purchase empty_shop run-purchase

purchase-keys : entry_keys (proposed "t1" 7 purchase) empty_shop ≡ none
unfolding entry_keys
purchase-keys = refl

append_entry_lands_example :
    ((transaction (append_entry "t1" 7 purchase) empty_shop).0
      ≡ ok (landing "t1" purchase empty_shop))
    × ((v : String)
        → cached v after_purchase.user_balances ≡ (
            if "u1" == v
            then cached v empty_shop.user_balances +ℤ pos 50
            else cached v empty_shop.user_balances))
    × (after_purchase.point_transactions ≡ proposed "t1" 7 purchase ∷ empty_shop.point_transactions)
unfolding ledger_run cached
append_entry_lands_example =
    append_entry_lands "t1" 7 purchase empty_shop refl refl purchase-keys refl refl refl

abbrev after_reversal : Db
after_reversal = (transaction (reverse_entry "t2" 8 "t1" "mistake") after_purchase).1

abbrev clawed_back : ReverseEntryResult
clawed_back = record {
  entry = record { transaction_id = "t2"; balance_after = pos 0; duplicate = false };
  reversed = true;
}

run-reversal :
    transaction (reverse_entry "t2" 8 "t1" "mistake") after_purchase
    ≡ (ok clawed_back, after_reversal)
unfolding ledger_run
run-reversal = refl

reverse_entry_undoes_example :
    cached "u1" after_reversal.user_balances ≡ cached "u1" empty_shop.user_balances
reverse_entry_undoes_example =
    reverse_entry_undoes "t1" "t2" 7 8 purchase "mistake" empty_shop run-purchase refl run-reversal
      refl "u1"

abbrev spend : AppendEntryInput
spend = record purchase {
  delta = negsuc 29;
  type = redeem;
  source = "redemption";
  external_event_id = none;
  rule_id = none;
}

abbrev after_spend : Session
after_spend = (append_entry "t2" 8 spend (opened after_purchase)).1

run-spend : append_entry "t2" 8 spend (opened after_purchase) ≡ (
  ok (record { transaction_id = "t2"; balance_after = pos 20; duplicate = false }),
  after_spend,
)
unfolding ledger_run
run-spend = refl

append_entry_floor_example : is_negative (pos 20) ≡ false
append_entry_floor_example =
    append_entry_floor "t2" 8 spend (opened after_purchase) after_spend run-spend refl refl refl

-- The purchase, of whose fifty points thirty are spent.
abbrev bought : PointTransaction
bought = proposed "t1" 7 purchase

abbrev after_clawback : Db
after_clawback = (transaction (reverse_entry "t3" 9 "t1" "mistake") after_spend.db).1

clawback-keys :
    entry_keys (proposed "t3" 9 (reversal_of "t1" bought "mistake")) after_spend.db ≡ none
unfolding ledger_run entry_keys
clawback-keys = refl

found_bought : entry_of "t1" after_spend.db ≡ some bought
unfolding ledger_run
found_bought = refl

unreversed : holder reversal_source (some "t1") after_spend.db ≡ none
unfolding ledger_run
unreversed = refl

reverse_entry_lands_example :
    ((transaction (reverse_entry "t3" 9 "t1" "mistake") after_spend.db).0
      ≡ ok (clawback "t3" "t1" bought "mistake" after_spend.db))
    × ((v : String)
        → cached v after_clawback.user_balances ≡ (
            if "u1" == v
            then cached v after_spend.db.user_balances +ℤ negate (pos 50)
            else cached v after_spend.db.user_balances))
    × (after_clawback.point_transactions
        ≡ proposed "t3" 9 (reversal_of "t1" bought "mistake") ∷ after_spend.db.point_transactions)
unfolding ledger_run negate cached
reverse_entry_lands_example =
    reverse_entry_lands "t3" 9 "t1" "mistake" after_spend.db bought found_bought refl refl refl
      clawback-keys unreversed refl

abbrev after_overdraft : Session
after_overdraft = (append_entry "t2" 8 spend (opened empty_shop)).1

run-overdraft :
    append_entry "t2" 8 spend (opened empty_shop)
    ≡ (err (insufficient_points "u1" (pos 0) 30), after_overdraft)
unfolding ledger_run
run-overdraft = refl

append_entry_refuses_example :
    (spend.user_id ≡ spend.user_id)
    × (pos 0 ≡ cached "u1" empty_shop.user_balances)
    × (30 ≡ abs (negsuc 29))
    × (or_default spend.enforce_non_negative true ≡ true)
    × (is_negative (negsuc 29) ≡ true)
    × (is_negative (pos 0 +ℤ negsuc 29) ≡ true)
    × (holder "redemption" none empty_shop ≡ none)
append_entry_refuses_example =
    append_entry_refuses "t2" 8 spend (opened empty_shop) after_overdraft run-overdraft

caught_overdraft_unbalanced_example :
    (after_overdraft.db.point_transactions ≡ proposed "t2" 8 spend ∷ empty_shop.point_transactions)
    × ((v : String) → cached v after_overdraft.db.user_balances ≡ cached v empty_shop.user_balances)
    × (¬ IsReconciled after_overdraft.db)
caught_overdraft_unbalanced_example =
    caught_overdraft_unbalanced "t2" 8 spend (opened empty_shop) after_overdraft
      empty_shop-IsReconciled run-overdraft

reconcile_healthy_example :
    (reconcile (λ a b. true) after_purchase ≡ (ok [], after_purchase))
    ↔ AllBalanced after_purchase after_purchase.users
reconcile_healthy_example = reconcile_healthy (λ a b. true) after_purchase
