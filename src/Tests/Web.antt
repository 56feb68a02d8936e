-- ===== src/Tests/Web.antt =====
-- The chart of two entries: a purchase, and a mug.
use mathlib.Core.List.{reverse}
use mini_rewards_integration.Prelude.{◌≡◌, List, [], ◌∷◌, map}
use mini_rewards_integration.Prelude.Int.{pos, negsuc, ◌+ℤ◌, negate}
use mini_rewards_integration.Database.Schema.{earn, redeem}
use mini_rewards_integration.Ledger.History.{LedgerEntrySummary}
use mini_rewards_integration.Web.{build_series}
use mini_rewards_integration.Web.Series.{
  total, deltas, running_balances, balance_after, build_series_balances,
}

abbrev spent : LedgerEntrySummary
spent = record {
  id = "t2";
  delta = negsuc 29;
  type = redeem;
  description = "Redeemed Mug";
  source = "redemption";
  created_at = 8;
}

abbrev earned_before : LedgerEntrySummary
earned_before = record {
  id = "t1";
  delta = pos 50;
  type = earn;
  description = "Purchase";
  source = "partner:acme";
  created_at = 7;
}

abbrev history : List LedgerEntrySummary
history = spent ∷ earned_before ∷ []

build_series_balances_example :
    (map (λ p. p.balance) (build_series history (pos 20))
      ≡ running_balances (pos 20 +ℤ negate (total history)) (reverse (deltas history)))
    × (balance_after (pos 20 +ℤ negate (total history)) (reverse (deltas history)) ≡ pos 20)
build_series_balances_example = build_series_balances spent (earned_before ∷ []) (pos 20)
