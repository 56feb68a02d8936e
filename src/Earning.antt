-- ===== src/Earning.antt =====
-- packages/api/src/modules/earning/: the window arithmetic (earning.service.ts) and the rule that
-- prices an event (rule.service.ts).
pub mod Windows
use mini_rewards_integration.Prelude.{
  ℕ, String, Bool, true, ◌&&◌, Option, none, some, List, [], ◌∷◌, ◌++◌, ◌==◌, ltb, leb, find?,
  select, if◌then◌else◌,
}
use mini_rewards_integration.Prelude.Int.{ℤ}
use mini_rewards_integration.Database.Schema.{EarningRule, Db}

pub record OverlappingPair : Type 0 where
  pub first : EarningRule
  pub second : EarningRule

-- `t < end`, where no end is positive infinity
abbrev pub before_end : ℕ → Option ℕ → Bool
before_end t none = true
before_end t (some end_time) = ltb t end_time

unfoldable pub windows_overlap : EarningRule → EarningRule → Bool
windows_overlap first second =
    before_end first.effective_from second.effective_to
    && before_end second.effective_from first.effective_to

-- the inner loop: `first` against each later rule
unfoldable pub overlaps_with : EarningRule → List EarningRule → List OverlappingPair
overlaps_with first [] = []
overlaps_with first (second ∷ rest) =
    let later = overlaps_with first rest in
    if (first.activity_type == second.activity_type) && windows_overlap first second
    then record { first = first; second = second } ∷ later
    else later

-- the outer loop
unfoldable pub overlaps_among : List EarningRule → List OverlappingPair
overlaps_among [] = []
overlaps_among (first ∷ rest) = overlaps_with first rest ++ overlaps_among rest

unfoldable pub find_overlapping_rules : List EarningRule → List OverlappingPair
find_overlapping_rules rules = overlaps_among (select (λ r. r.active) rules)

pub record ResolvedRule : Type 0 where
  pub rule_id : String
  pub activity_type : String
  pub points : ℤ

-- The filter of `resolveRule`: an active rule of the activity whose window holds the instant.
abbrev pub prices : String → ℕ → EarningRule → Bool
prices activity_type occurred_at r =
    r.active
    && ((r.activity_type == activity_type)
        && (leb r.effective_from occurred_at && before_end occurred_at r.effective_to))

abbrev pub resolved? : Option EarningRule → Option ResolvedRule
resolved? none = none
resolved? (some r) =
    some (record { rule_id = r.id; activity_type = r.activity_type; points = r.points })

unfoldable pub resolve_rule : String → ℕ → Db → Option ResolvedRule
resolve_rule activity_type occurred_at db =
    resolved? (find? (prices activity_type occurred_at) db.earning_rules)
