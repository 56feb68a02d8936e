-- ===== src/Ledger/History/Whole.antt =====
-- A history as a whole, and one page of it (packages/api/src/modules/ledger/ledger.service.ts).
use mathlib.Core.Option
use mini_rewards_integration.Prelude.{
  ℕ, zero, suc, ◌≤◌, ◌<◌, String, Bool, true, false, ◌≡◌, ◌∙◌, ◌&&◌, refl, sym, ap, inl, inr, List,
  [], ◌∷◌, ◌++◌, map, Option, none, some, arith, ltb, length, select, or_default, Bool-cases,
  Option-cases,
}
use mini_rewards_integration.Prelude.Sort.{
  take, last?, take-all, length-take-le, length-drop, last?-cons, All, sort,
}
use mini_rewards_integration.Database.Schema.{PointTransaction, Db}
use mini_rewards_integration.Ledger.History.{
  newest, Position, Codec, ListTransactionsInput, LedgerEntrySummary, position, past, entry_summary,
  cursor_position, cursor_after, comes_before, beyond_cursor, listed_for, matching, page_of,
  list_transactions,
}
use mini_rewards_integration.Ledger.History.Cursor.{IsCodec, IsPlain}
use mini_rewards_integration.Ledger.History.Order.{IsIdOrder, HasUniqueIds}
use mini_rewards_integration.Ledger.History.Pages.{
  length-map, page_of-take, left_over, list_transactions_next,
}

-- The reader of the whole history: page after page, from a cursor on. None where the fuel runs out.
pub read_all :
    (String → String → Bool)
    → Codec
    → Db
    → ℕ
    → ListTransactionsInput
    → Option (List LedgerEntrySummary)
read_all id_lt codec db zero input = none
read_all id_lt codec db (suc fuel) input =
    let page = list_transactions id_lt codec input db in
    elim page.next_cursor [
      | none ↦ some page.items
      | some cursor ↦
          Option.map (λ rest. page.items ++ rest)
            (read_all id_lt codec db fuel (record input { cursor = some cursor }))
    ]

-- A page without a next cursor is the last one.
last_page :
    (id_lt : String → String → Bool) (codec : Codec) (input : ListTransactionsInput) (db : Db)
    → 1 ≤ input.limit
    → (list_transactions id_lt codec input db).next_cursor ≡ none
    → (list_transactions id_lt codec input db).items
      ≡ map entry_summary (matching id_lt codec input db)
unfolding list_transactions
last_page id_lt codec input db filled h =
    let rows = matching id_lt codec input db in
    rw (page_of-take codec input.limit rows) (
      ap (map entry_summary) (
        take-all input.limit rows (
          no_more rows input.limit filled
            (sym (ap (λ p. p.next_cursor) (page_of-take codec input.limit rows)) ∙ h))))
  where
    no_more :
        (rows : List PointTransaction) (n : ℕ)
        → 1 ≤ n
        → cursor_after codec (ltb n (length rows)) (last? (take n rows)) ≡ none
        → length rows ≤ n
    no_more rows zero f e = absurd (omega arith)
    no_more [] (suc n) f e = omega arith
    no_more (x ∷ xs) (suc n) f e = elim (Bool-cases (ltb (suc n) (length (x ∷ xs)))) [
      | inr done ↦ ground arith
      | inl more ↦ let (l, shown) = last?-cons x (take n xs) in cc (rw (more, shown) at e)
    ]

-- Following the cursors ends, with fuel for one page more than there are rows, and gives every row of
-- the history once, in its order.
pub read_all_whole :
    (id_lt : String → String → Bool) (codec : Codec) (db : Db) (fuel : ℕ)
    (input : ListTransactionsInput)
    → IsIdOrder id_lt
    → IsCodec codec
    → HasUniqueIds db.point_transactions
    → All (λ t. IsPlain codec (position t)) db.point_transactions
    → 1 ≤ input.limit
    → length (matching id_lt codec input db) < fuel
    → read_all id_lt codec db fuel input ≡ some (map entry_summary (matching id_lt codec input db))
unfolding read_all
read_all_whole id_lt codec db zero input o c keyed plain filled enough = absurd (omega arith)
read_all_whole id_lt codec db (suc fuel) input o c keyed plain filled enough =
    elim (Option-cases (list_transactions id_lt codec input db).next_cursor) [
      | inl done ↦
          rw (done, read_all) (ap (λ rows. some rows) (last_page id_lt codec input db filled done))
      | inr (cursor, more) ↦
          let (longer, rest) = left_over id_lt o codec c input db keyed plain more in
          let fewer = length-drop input.limit (matching id_lt codec input db) (omega arith) in
          rw (more, read_all)
            (rw
              (read_all_whole id_lt codec db fuel (record input { cursor = some cursor }) o c keyed
                plain filled (rw rest (omega arith)))
              (ap (λ rows. some rows)
                (list_transactions_next id_lt codec input db o c keyed plain more)))
    ]

pub list_transactions_size :
    (id_lt : String → String → Bool) (codec : Codec) (input : ListTransactionsInput) (db : Db)
    → length (list_transactions id_lt codec input db).items ≤ input.limit
unfolding list_transactions
list_transactions_size id_lt codec input db =
    let rows = matching id_lt codec input db in
    rw (page_of-take codec input.limit rows)
      (rw (length-map entry_summary (take input.limit rows)) (length-take-le input.limit rows))

and_false : (b : Bool) → (b && false) ≡ false
and_false true = refl
and_false false = refl

select-skip :
    {A : Type 0} (p : A → Bool) (x : A) (xs : List A)
    → p x ≡ false
    → select p (x ∷ xs) ≡ select p xs
select-skip p x xs h = rw h

-- An entry that is written between two requests, and is not behind the cursor in the direction of
-- travel, changes nothing in the next page.
pub list_transactions_stable :
    (id_lt : String → String → Bool) (codec : Codec) (input : ListTransactionsInput) (db : Db)
    (row : PointTransaction) {p : Position}
    → cursor_position codec input.cursor ≡ some p
    → past id_lt (or_default input.order newest) p (position row) ≡ false
    → list_transactions id_lt codec input
        (record db { point_transactions = row ∷ db.point_transactions })
      ≡ list_transactions id_lt codec input db
unfolding list_transactions matching
list_transactions_stable id_lt codec input db row at_cursor behind =
    let order = or_default input.order newest in
    let fits = λ (t : PointTransaction).
      listed_for id_lt input t
      && beyond_cursor id_lt order (cursor_position codec input.cursor) t in
    let passed_over : fits row ≡ false =
      rw at_cursor (rw behind (and_false (listed_for id_lt input row))) in
    ap
      (λ rows.
        page_of codec input.limit (take (suc input.limit) (sort (comes_before id_lt order) rows)))
      (select-skip fits row db.point_transactions passed_over)
