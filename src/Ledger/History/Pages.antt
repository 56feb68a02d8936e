-- ===== src/Ledger/History/Pages.antt =====
-- Reading a history page by page (packages/api/src/modules/ledger/ledger.service.ts).
use mathlib.Core.List.{map-append}
use mini_rewards_integration.Prelude.{
  ℕ, zero, suc, ◌<◌, String, Bool, true, ◌≡◌, ◌∙◌, ◌&&◌, refl, sym, ap, subst, inl, inr, List, [],
  ◌∷◌, ◌++◌, map, Option, none, some, arith, ltb, length, select, or_default, Bool-cases,
  Option-cases,
}
use mini_rewards_integration.Prelude.Sort.{
  take, drop, last?, take-drop, take-take, take-all, length-take, All, All-select, select-select,
  select-agree, select-holds, All-last_take, All-sort, sort, sort-IsSorted, select-sort,
  select-after,
}
use mini_rewards_integration.Database.Schema.{PointTransaction, Db}
use mini_rewards_integration.Ledger.History.{
  newest, Position, Codec, ListTransactionsInput, encode_cursor, position, entry_summary,
  cursor_position, cursor_after, past, comes_before, beyond_cursor, listed_for, matching, page_of,
  list_transactions,
}
use mini_rewards_integration.Ledger.History.Cursor.{IsCodec, IsPlain, decode_cursor-encode_cursor}
use mini_rewards_integration.Ledger.History.Order.{
  IsIdOrder, HasUniqueIds, comes_before-past, comes_before_asym, comes_before_trans, past_trans,
  HasUniqueIds-IsTold, HasUniqueIds-select,
}

pub length-map : {A B : Type 0} (f : A → B) (xs : List A) → length (map f xs) ≡ length xs
length-map f [] = refl
length-map f (x ∷ xs) = omega (arith, length-map f xs)

-- What a page shows of the rows that match: with more of them than the limit, the first `limit`.
pub page_of-take :
    (codec : Codec) (limit : ℕ) (rows : List PointTransaction)
    → page_of codec limit (take (suc limit) rows) ≡ record {
      items = map entry_summary (take limit rows);
      next_cursor = cursor_after codec (ltb limit (length rows)) (last? (take limit rows));
    }
unfolding page_of
page_of-take codec limit rows = elim (Bool-cases (ltb limit (length rows))) [
  | inl more ↦
      let full : ltb limit (length (take (suc limit) rows)) ≡ true =
        ground (arith, length-take (suc limit) rows) in
      rw (full, more, take-take limit rows)
  | inr last_page ↦
      let whole = take-all (suc limit) rows (ground arith) in
      rw (whole, last_page, take-all limit rows (ground arith))
]

module _ (id_lt : String → String → Bool) (o : IsIdOrder id_lt) (codec : Codec) (c : IsCodec codec)
    (input : ListTransactionsInput) (db : Db) (keyed : HasUniqueIds db.point_transactions) where
  -- past a row that is past the cursor is past the cursor
  past_both :
      (cursor : Option Position) (l t : PointTransaction)
      → (listed_for id_lt input l && beyond_cursor id_lt (or_default input.order newest) cursor l)
        ≡ true
      → ((listed_for id_lt input t && beyond_cursor id_lt (or_default input.order newest) cursor t)
          && comes_before id_lt (or_default input.order newest) l t)
        ≡ (listed_for id_lt input t
            && past id_lt (or_default input.order newest) (position l) (position t))
  past_both none l t h =
      rw (comes_before-past id_lt o (or_default input.order newest) l t) (ground arith)
  past_both (some cursor) l t h =
      let order = or_default input.order newest in
      rw (comes_before-past id_lt o order l t)
        (ground (arith, past_trans id_lt o order cursor (position l) (position t)))

  matching-next :
      (n : ℕ) (l : PointTransaction)
      → last? (take (suc n) (matching id_lt codec input db)) ≡ some l
      → IsPlain codec (position l)
      → matching id_lt codec (record input { cursor = some (encode_cursor codec (position l)) }) db
        ≡ drop (suc n) (matching id_lt codec input db)
  unfolding matching
  matching-next n l shown plain =
      let order = or_default input.order newest in
      let cursor = cursor_position codec input.cursor in
      let fits =
        λ (t : PointTransaction). listed_for id_lt input t && beyond_cursor id_lt order cursor t in
      let rows = db.point_transactions in
      let asym = comes_before_asym id_lt o order in
      let trans = comes_before_trans id_lt o order in
      let told =
        HasUniqueIds-IsTold id_lt o order (select fits rows)
          (HasUniqueIds-select fits rows keyed) in
      let own : fits l ≡ true =
        All-last_take (λ t. fits t ≡ true) (suc n)
          (sort (comes_before id_lt order) (select fits rows)) l
          (All-sort (comes_before id_lt order) (λ t. fits t ≡ true) (select fits rows)
            (select-holds fits rows))
          shown in
      rw (decode_cursor-encode_cursor codec (position l) c plain) (
        ap (sort (comes_before id_lt order)) (
          sym (
            select-select fits (comes_before id_lt order l) rows
            ∙ select-agree _ _ rows (λ t. past_both cursor l t own)))
        ∙ (sym (
              select-sort (comes_before id_lt order) asym trans (comes_before id_lt order l)
                (select fits rows) told)
            ∙ select-after (comes_before id_lt order) asym trans n _ l
                (sort-IsSorted (comes_before id_lt order) asym trans (select fits rows) told)
                shown))

  All-matching :
      (P : PointTransaction → Type 0)
      → All P db.point_transactions
      → All P (matching id_lt codec input db)
  unfolding matching
  All-matching P h =
      let order = or_default input.order newest in
      let fits = λ (t : PointTransaction).
        listed_for id_lt input t
        && beyond_cursor id_lt order (cursor_position codec input.cursor) t in
      All-sort (comes_before id_lt order) P (select fits db.point_transactions)
        (All-select P fits db.point_transactions h)

  -- Where a page has a next cursor, it is that of its last row.
  cursor_after-cases :
      (rows : List PointTransaction) (n : ℕ) {cursor : String}
      → cursor_after codec (ltb n (length rows)) (last? (take n rows)) ≡ some cursor
      → (l : PointTransaction) × (n < length rows)
        × (last? (take n rows) ≡ some l)
        × (encode_cursor codec (position l) ≡ cursor)
  cursor_after-cases rows n h = elim (Bool-cases (ltb n (length rows))) [
    | inr done ↦ cc (rw done at h)
    | inl more ↦ elim (Option-cases (last? (take n rows))) [
      | inl empty ↦ cc (rw (more, empty) at h)
      | inr (l, shown) ↦ (l, ground arith, shown, cc (rw (more, shown) at h))
    ]
  ]

  -- The rows that the next cursor leads to are those that the page leaves.
  pub left_over :
      (plain : All (λ t. IsPlain codec (position t)) db.point_transactions) {cursor : String}
      → (list_transactions id_lt codec input db).next_cursor ≡ some cursor
      → (input.limit < length (matching id_lt codec input db))
        × (matching id_lt codec (record input { cursor = some cursor }) db
            ≡ drop input.limit (matching id_lt codec input db))
  unfolding list_transactions
  left_over plain h =
      let rows = matching id_lt codec input db in
      let (l, more, shown, e) =
        cursor_after-cases rows input.limit
          (sym (ap (λ p. p.next_cursor) (page_of-take codec input.limit rows)) ∙ h) in
      (
        more,
        subst
            (λ k.
              matching id_lt codec (record input { cursor = some k }) db ≡ drop input.limit rows)
            e (behind l input.limit shown),
      )
    where
      behind :
          (l : PointTransaction) (n : ℕ)
          → last? (take n (matching id_lt codec input db)) ≡ some l
          → matching id_lt codec
              (record input { cursor = some (encode_cursor codec (position l)) })
              db
            ≡ drop n (matching id_lt codec input db)
      behind l zero shown = cc
      behind l (suc n) shown = matching-next n l shown (
          All-last_take (λ t. IsPlain codec (position t)) (suc n) (matching id_lt codec input db) l
            (All-matching (λ t. IsPlain codec (position t)) plain) shown)

-- A page and the rows behind its next cursor are together the rows behind its own: no row is skipped
-- and none is repeated.
pub list_transactions_next :
    (id_lt : String → String → Bool) (codec : Codec) (input : ListTransactionsInput) (db : Db)
    {cursor : String}
    → IsIdOrder id_lt
    → IsCodec codec
    → HasUniqueIds db.point_transactions
    → All (λ t. IsPlain codec (position t)) db.point_transactions
    → (list_transactions id_lt codec input db).next_cursor ≡ some cursor
    → (list_transactions id_lt codec input db).items
        ++ map entry_summary (matching id_lt codec (record input { cursor = some cursor }) db)
      ≡ map entry_summary (matching id_lt codec input db)
unfolding list_transactions
list_transactions_next id_lt codec input db {cursor} o c keyed plain h =
    let rows = matching id_lt codec input db in
    rw (page_of-take codec input.limit rows, (left_over id_lt o codec c input db keyed plain h).1)
      (sym (map-append entry_summary (take input.limit rows) (drop input.limit rows))
        ∙ ap (map entry_summary) (take-drop input.limit rows))
