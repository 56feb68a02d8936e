-- ===== src/Tests/Earning.antt =====
-- The earning rules' results at two windows.
use mini_rewards_integration.Prelude.{ℕ, ◌≤◌, true, ◌≡◌, ◌↔◌, refl, some, [], ◌∷◌, length, select}
use mini_rewards_integration.Database.Schema.{EarningRule}
use mini_rewards_integration.Earning.{
  prices, windows_overlap, overlaps_with, overlaps_among, find_overlapping_rules,
}
use mini_rewards_integration.Earning.Windows.{Covers, windows_overlap_iff, resolve_rule_unique}
use mini_rewards_integration.Tests.{purchase_rule}

abbrev launch_rule : EarningRule
launch_rule = record purchase_rule { id = "e0"; effective_from = 5; effective_to = some 9 }

abbrev old_rule : EarningRule
old_rule = record purchase_rule { id = "e2"; effective_from = 2; effective_to = some 5 }

windows_overlap_iff_example :
    (windows_overlap launch_rule purchase_rule ≡ true)
    ↔ ((t : ℕ) × (Covers launch_rule t × Covers purchase_rule t))
windows_overlap_iff_example = windows_overlap_iff launch_rule purchase_rule refl refl

apart : find_overlapping_rules (launch_rule ∷ old_rule ∷ []) ≡ []
unfolding find_overlapping_rules overlaps_among overlaps_with windows_overlap
apart = refl

resolve_rule_unique_example :
    length (select (prices "PURCHASE" 6) (launch_rule ∷ old_rule ∷ [])) ≤ 1
resolve_rule_unique_example = resolve_rule_unique "PURCHASE" 6 (launch_rule ∷ old_rule ∷ []) apart
