-- ===== src/Web/Series.antt =====
-- The balances of the chart (packages/web/src/components/BalanceSparkline.tsx).
use mathlib.Core.List.{reverse, reverse-cons, map-append}
use mini_rewards_integration.Prelude.{◌≡◌, ◌∙◌, refl, ap, sym, List, [], ◌∷◌, ◌++◌, map, some}
use mini_rewards_integration.Prelude.Int.{ℤ, pos, ◌+ℤ◌, negate, int_laws}
use mini_rewards_integration.Prelude.Sort.{last?, last?-cons}
use mini_rewards_integration.Ledger.History.{LedgerEntrySummary}
use mini_rewards_integration.Web.{Point, walk_back, balance_before, opening, build_series}

-- The sum of the entries' deltas.
pub total : List LedgerEntrySummary → ℤ
total [] = pos 0
total (e ∷ es) = total es +ℤ e.delta

-- A balance, and what it comes to after each of the deltas, in their order.
abbrev pub running_balances : ℤ → List ℤ → List ℤ
running_balances b [] = b ∷ []
running_balances b (d ∷ ds) = b ∷ running_balances (b +ℤ d) ds

-- The balances as the walk meets them, down to the opening one.
abbrev falling : ℤ → List LedgerEntrySummary → List ℤ
falling c [] = c ∷ []
falling c (e ∷ es) = c ∷ falling (c +ℤ negate e.delta) es

-- What the deltas bring a balance to, one after another.
abbrev pub balance_after : ℤ → List ℤ → ℤ
balance_after b [] = b
balance_after b (d ∷ ds) = balance_after (b +ℤ d) ds

running_balances-snoc :
    (b d : ℤ) (ds : List ℤ)
    → running_balances b (ds ++ (d ∷ []))
      ≡ running_balances b ds ++ ((balance_after b ds +ℤ d) ∷ [])
running_balances-snoc b d [] = refl
running_balances-snoc b d (x ∷ xs) = ap (λ l. b ∷ l) (running_balances-snoc (b +ℤ x) d xs)

balance_after-snoc :
    (b d : ℤ) (ds : List ℤ) → balance_after b (ds ++ (d ∷ [])) ≡ balance_after b ds +ℤ d
balance_after-snoc b d [] = refl
balance_after-snoc b d (x ∷ xs) = balance_after-snoc (b +ℤ x) d xs

abbrev pub deltas : List LedgerEntrySummary → List ℤ
deltas = map (λ e. e.delta)

back_and_forth : (c d : ℤ) → (c +ℤ negate d) +ℤ d ≡ c
back_and_forth c d = omega int_laws

one_less : (c d t : ℤ) → (c +ℤ negate d) +ℤ negate t ≡ c +ℤ negate (t +ℤ d)
one_less c d t = omega int_laws

ends_at :
    (c : ℤ) (es : List LedgerEntrySummary)
    → balance_after (balance_before c es) (reverse (deltas es)) ≡ c
ends_at c [] = refl
ends_at c (e ∷ es) =
    let rest = ends_at (c +ℤ negate e.delta) es in
    rw (reverse-cons e.delta (deltas es)) (
      balance_after-snoc (balance_before c (e ∷ es)) e.delta (reverse (deltas es))
      ∙ ap (λ b. b +ℤ e.delta) rest
      ∙ back_and_forth c e.delta)

less_nothing : (c : ℤ) → c ≡ c +ℤ negate (pos 0)
less_nothing c = omega int_laws

starts_at : (c : ℤ) (es : List LedgerEntrySummary) → balance_before c es ≡ c +ℤ negate (total es)
unfolding total
starts_at c [] = less_nothing c
starts_at c (e ∷ es) = starts_at (c +ℤ negate e.delta) es ∙ one_less c e.delta (total es)

reversed :
    (c : ℤ) (es : List LedgerEntrySummary)
    → reverse (falling c es) ≡ running_balances (balance_before c es) (reverse (deltas es))
reversed c [] = refl
reversed c (e ∷ es) =
    let less = c +ℤ negate e.delta in
    let before = balance_before less es in
    reverse-cons c (falling less es)
    ∙ ap (λ l. l ++ (c ∷ [])) (reversed less es)
    ∙ ap (λ x. running_balances before (reverse (deltas es)) ++ (x ∷ []))
        (sym (ap (λ b. b +ℤ e.delta) (ends_at less es) ∙ back_and_forth c e.delta))
    ∙ sym (running_balances-snoc before e.delta (reverse (deltas es)))
    ∙ ap (running_balances before) (sym (reverse-cons e.delta (deltas es)))

map-reverse : {A B : Type 0} (f : A → B) (xs : List A) → map f (reverse xs) ≡ reverse (map f xs)
map-reverse f [] = refl
map-reverse f (x ∷ xs) =
    ap (map f) (reverse-cons x xs)
    ∙ map-append f (reverse xs) (x ∷ [])
    ∙ ap (λ l. l ++ (f x ∷ [])) (map-reverse f xs)
    ∙ sym (reverse-cons (f x) (map f xs))

-- The walk with the opening point behind it.
points_fall :
    (c : ℤ) (es : List LedgerEntrySummary) (oldest : LedgerEntrySummary)
    → map (λ p. p.balance) (walk_back c es ++ opening (balance_before c es) (some oldest))
      ≡ falling c es
points_fall c [] oldest = refl
points_fall c (e ∷ es) oldest = ap (λ l. c ∷ l) (points_fall (c +ℤ negate e.delta) es oldest)

-- The chart of a history that is not empty, newest first, shows the balances that its deltas, taken in
-- the order of time, lead through: from the balance of now less all of them, up to the balance of now.
pub build_series_balances :
    (e : LedgerEntrySummary) (es : List LedgerEntrySummary) (current_balance : ℤ)
    → let history = e ∷ es in
      let first = current_balance +ℤ negate (total history) in
      let steps = reverse (deltas history) in
      (map (λ p. p.balance) (build_series history current_balance) ≡ running_balances first steps)
      × (balance_after first steps ≡ current_balance)
unfolding build_series
build_series_balances e es current_balance =
    let (oldest, found) = last?-cons e es in
    let history = e ∷ es in
    let points : List Point =
      walk_back current_balance history
      ++ opening (balance_before current_balance history) (last? history) in
    let walked : map (λ p. p.balance) points ≡ falling current_balance history =
      rw found (points_fall current_balance history oldest) in
    rw (sym (starts_at current_balance (e ∷ es))) (
      map-reverse {A = Point} (λ p. p.balance) points
          ∙ ap reverse walked
          ∙ reversed current_balance (e ∷ es),
      ends_at current_balance (e ∷ es),
    )
