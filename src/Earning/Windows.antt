-- ===== src/Earning/Windows.antt =====
-- The windows of earning rules and the rules that price an event (packages/api/src/modules/earning/).
use mini_rewards_integration.Prelude.{
  ℕ, ◌≤◌, String, Bool, true, false, ◌≡◌, ◌↔◌, refl, List, [], ◌∷◌, ◌++◌, arith, eq_iff, leb,
  length, exists, select, if◌then◌else◌,
}
use mini_rewards_integration.Database.Schema.{EarningRule}
use mini_rewards_integration.Earning.{
  before_end, windows_overlap, overlaps_with, overlaps_among, find_overlapping_rules, prices,
}

-- The instant lies in the half-open window of the rule.
abbrev pub Covers : EarningRule → ℕ → Type 0
Covers r t = (r.effective_from ≤ t) × (before_end t r.effective_to ≡ true)

-- The CHECK of earning_rules: a window that ends does so after its start.
abbrev pub IsOrdered : EarningRule → Type 0
IsOrdered r = before_end r.effective_from r.effective_to ≡ true

abbrev later_start : EarningRule → EarningRule → ℕ
later_start a b =
    if leb a.effective_from b.effective_from then b.effective_from else a.effective_from

-- Two ordered windows overlap, as the code tests it, exactly when some instant lies in both.
pub windows_overlap_iff :
    (a b : EarningRule)
    → IsOrdered a
    → IsOrdered b
    → (windows_overlap a b ≡ true) ↔ ((t : ℕ) × (Covers a t × Covers b t))
unfolding windows_overlap
windows_overlap_iff a b oa ob = (λ h. (later_start a b, ground arith), λ c. ground (arith, c.1))

-- A rule that prices an event overlaps every later active rule that prices it too.
overlaps_with-priced :
    (activity : String) (t : ℕ) (a : EarningRule) (rs : List EarningRule)
    → prices activity t a ≡ true
    → overlaps_with a (select (λ r. r.active) rs) ≡ []
    → exists (prices activity t) rs ≡ false
unfolding overlaps_with windows_overlap
overlaps_with-priced activity t a [] pa h = refl
overlaps_with-priced activity t a (r ∷ rs) pa h = ground (
  arith,
  overlaps_with-priced activity t a rs pa,
  eq_iff r.activity_type activity,
  eq_iff a.activity_type activity,
  eq_iff a.activity_type r.activity_type,
)

append-nil_left : {A : Type 0} (xs ys : List A) → xs ++ ys ≡ [] → (xs ≡ []) × (ys ≡ [])
append-nil_left [] ys h = (refl, h)
append-nil_left (x ∷ xs) ys h = cc

select-none :
    (p : EarningRule → Bool) (rs : List EarningRule) → exists p rs ≡ false → select p rs ≡ []
select-none p [] h = refl
select-none p (r ∷ rs) h = ground (arith, select-none p rs)

-- Where no active rules overlap, at most one row fits `resolveRule`'s filter: which row comes back
-- first cannot matter.
pub resolve_rule_unique :
    (activity : String) (t : ℕ) (rules : List EarningRule)
    → find_overlapping_rules rules ≡ []
    → length (select (prices activity t) rules) ≤ 1
unfolding find_overlapping_rules overlaps_among
resolve_rule_unique activity t [] h = omega arith
resolve_rule_unique activity t (r ∷ rs) h = ground (
  arith,
  resolve_rule_unique activity t rs,
  append-nil_left (overlaps_with r (select (λ r. r.active) rs))
      (overlaps_among (select (λ r. r.active) rs)),
  overlaps_with-priced activity t r rs,
  select-none (prices activity t) rs,
)
