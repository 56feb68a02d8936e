-- ===== src/Ledger/History/Shown.antt =====
-- What a page of a history shows (packages/api/src/modules/ledger/ledger.service.ts).
use mathlib.Core.List.{Perm}
use mini_rewards_integration.Prelude.{
  ◌≤◌, ◌<◌, String, Bool, true, ◌≡◌, ◌↔◌, ◌⊎◌, ◌&&◌, ◌==◌, refl, inl, inr, List, [], ◌∷◌, map,
  Option, none, some, arith, ltb, length, select, or_default, Bool-cases,
}
use mini_rewards_integration.Prelude.Sort.{take, All, sort, IsSorted, sort-IsSorted, sort-perm}
use mini_rewards_integration.Database.Schema.{PointTransaction, Db}
use mini_rewards_integration.Ledger.History.{
  TransactionOrder, newest, oldest, Position, Codec, ListTransactionsInput, position, past, type_is,
  entry_summary, cursor_position, comes_before, beyond_cursor, listed_for, matching,
  list_transactions,
}
use mini_rewards_integration.Ledger.History.Order.{
  IsIdOrder, HasUniqueIds, comes_before-past, comes_before_asym, comes_before_trans,
  HasUniqueIds-IsTold, HasUniqueIds-select,
}
use mini_rewards_integration.Ledger.History.Pages.{page_of-take}
use mini_rewards_integration.Ledger.History.Whole.{list_transactions_size}

module _ (id_lt : String → String → Bool) where
  -- An entry behind a position in the direction of travel: dated before it, for the newest first, or
  -- after it, for the oldest first; of one date, the ids tell.
  abbrev pub Follows : TransactionOrder → Position → PointTransaction → Type 0
  Follows newest p t =
      (t.created_at < p.created_at) ⊎ ((t.created_at ≡ p.created_at) × (id_lt t.id p.id ≡ true))
  Follows oldest p t =
      (p.created_at < t.created_at) ⊎ ((t.created_at ≡ p.created_at) × (id_lt p.id t.id ≡ true))

  abbrev pub FollowsCursor : TransactionOrder → Option Position → PointTransaction → Type 0
  FollowsCursor order none t = Unit
  FollowsCursor order (some p) t = Follows order p t

  -- Every entry is followed by those behind it.
  abbrev pub InTime : TransactionOrder → List PointTransaction → Type 0
  InTime order [] = Unit
  InTime order (t ∷ ts) = All (Follows order (position t)) ts × InTime order ts

  past_iff :
      (order : TransactionOrder) (p : Position) (t : PointTransaction)
      → (past id_lt order p (position t) ≡ true) ↔ Follows order p t
  past_iff newest p t = (
    λ h. elim (Bool-cases (ltb t.created_at p.created_at)) [
      | inl before ↦ inl (ground arith)
      | inr level ↦ inr (ground arith, ground arith)
    ],
    λ h. elim h [ inl before ↦ ground arith | inr level ↦ ground (arith, level.0, level.1) ],
  )
  past_iff oldest p t = (
    λ h. elim (Bool-cases (ltb p.created_at t.created_at)) [
      | inl before ↦ inl (ground arith)
      | inr level ↦ inr (ground arith, ground arith)
    ],
    λ h. elim h [ inl before ↦ ground arith | inr level ↦ ground (arith, level.0, level.1) ],
  )

  beyond_iff :
      (order : TransactionOrder) (cursor : Option Position) (t : PointTransaction)
      → (beyond_cursor id_lt order cursor t ≡ true) ↔ FollowsCursor order cursor t
  beyond_iff order none t = (λ h. tt, λ h. refl)
  beyond_iff order (some p) t = past_iff order p t

  module _ (o : IsIdOrder id_lt) where
    All-Follows :
        (order : TransactionOrder) (t : PointTransaction) (ts : List PointTransaction)
        → All (λ u. comes_before id_lt order t u ≡ true) ts
        → All (Follows order (position t)) ts
    All-Follows order t [] h = tt
    All-Follows order t (u ∷ us) h = (
      (past_iff order (position t) u).0 (rw (comes_before-past id_lt o order t u) at h.0),
      All-Follows order t us h.1,
    )

    IsSorted-InTime :
        (order : TransactionOrder) (ts : List PointTransaction)
        → IsSorted (comes_before id_lt order) ts
        → InTime order ts
    IsSorted-InTime order [] h = tt
    IsSorted-InTime order (t ∷ ts) h = (All-Follows order t ts h.0, IsSorted-InTime order ts h.1)

-- A page holds at most `limit` entries: the first ones of a list of rows that is in the order of time
-- asked for, ids deciding between rows of one date, and that has, each once, exactly the entries of the
-- user whose type is asked for and that the cursor does not hold back; it holds back none that is behind
-- its position in the direction of travel, and every other.
pub list_transactions_page :
    (id_lt : String → String → Bool) (codec : Codec) (input : ListTransactionsInput) (db : Db)
    → IsIdOrder id_lt
    → HasUniqueIds db.point_transactions
    → let order = or_default input.order newest in
      let cursor = cursor_position codec input.cursor in
      (rows : List PointTransaction) × ((list_transactions id_lt codec input db).items
        ≡ map entry_summary (take input.limit rows))
      × (length (list_transactions id_lt codec input db).items ≤ input.limit)
      × InTime id_lt order rows
      × Perm rows (
          select
            (λ t.
              (t.user_id == input.user_id && type_is input.type t.type)
              && beyond_cursor id_lt order cursor t)
            db.point_transactions)
      × ((t : PointTransaction)
          → (beyond_cursor id_lt order cursor t ≡ true) ↔ FollowsCursor id_lt order cursor t)
unfolding list_transactions matching
list_transactions_page id_lt codec input db o keyed =
    let order = or_default input.order newest in
    let fits = λ (t : PointTransaction).
      listed_for id_lt input t
      && beyond_cursor id_lt order (cursor_position codec input.cursor) t in
    let chosen = select fits db.point_transactions in
    let shown = page_of-take codec input.limit (sort (comes_before id_lt order) chosen) in
    (
      sort (comes_before id_lt order) chosen,
      rw shown refl,
      list_transactions_size id_lt codec input db,
      IsSorted-InTime id_lt o order (sort (comes_before id_lt order) chosen) (
          sort-IsSorted (comes_before id_lt order) (comes_before_asym id_lt o order)
            (comes_before_trans id_lt o order) chosen
            (HasUniqueIds-IsTold id_lt o order chosen
              (HasUniqueIds-select fits db.point_transactions keyed))),
      sort-perm (comes_before id_lt order) chosen,
      beyond_iff id_lt order (cursor_position codec input.cursor),
    )
