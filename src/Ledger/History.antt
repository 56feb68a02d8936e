-- ===== src/Ledger/History.antt =====
-- packages/api/src/modules/ledger/ledger.service.ts: `listTransactions`, a user's history by pages, and
-- its cursors. What Node does with base64url and with dates, and the database's collation of ids, are
-- arguments.
pub mod Cursor
pub mod Order
pub mod Pages
pub mod Whole
pub mod Shown
use Prim.Native.Char.{Char, code}
use Prim.Native.String.{◌++◌}
use mini_rewards_integration.Prelude.{
  ℕ, suc, String, Bool, true, false, ◌&&◌, ◌||◌, Option, none, some, List, map, ◌==◌, or_default,
  ltb, eqb, length, select, if◌then◌else◌,
}
use mini_rewards_integration.Prelude.Int.{ℤ}
use mini_rewards_integration.Prelude.Sort.{take, last?, sort}
use mini_rewards_integration.Database.Schema.{
  TransactionType, earn, redeem, reversal, adjustment, PointTransaction, Db,
}

pub record LedgerEntrySummary : Type 0 where
  pub id : String
  pub delta : ℤ
  pub type : TransactionType
  pub description : String
  pub source : String
  pub created_at : ℕ

pub record TransactionPage : Type 0 where
  pub items : List LedgerEntrySummary
  pub next_cursor : Option String

pub data TransactionOrder : Type 0 where
  newest oldest : TransactionOrder

pub record ListTransactionsInput : Type 0 where
  pub user_id : String
  pub cursor : Option String
  pub limit : ℕ
  pub type : Option TransactionType
  pub order : Option TransactionOrder

-- `{ createdAt, id }`, what a cursor stands for
pub record Position : Type 0 where
  pub created_at : ℕ
  pub id : String

pub record Codec : Type 0 where
  -- `Buffer.from(text, 'utf8').toString('base64url')` and back
  pub to_base64url : String → String
  pub from_base64url : String → String
  -- `toISOString`, and `new Date(text)` with none for an invalid date
  pub to_iso : ℕ → String
  pub parse_date : String → Option ℕ
  -- the last instant that a `Date` can hold
  pub last_instant : ℕ

unfoldable pub encode_cursor : Codec → Position → String
encode_cursor codec entry = codec.to_base64url (codec.to_iso entry.created_at ++ ("|" ++ entry.id))

abbrev pub is_bar : Char → Bool
is_bar c = eqb (code c) b'|'

-- `text.split('|')`: the first part, and the text behind the first bar
unfoldable pub first_part : String → String
first_part String.[] = ""
first_part (String.◌∷◌ c s) = if is_bar c then "" else String.◌∷◌ c (first_part s)

unfoldable pub behind_bar : String → Option String
behind_bar String.[] = none
behind_bar (String.◌∷◌ c s) = if is_bar c then some s else behind_bar s

-- An empty text, or no second part, is no cursor.
abbrev pub second_part : Option String → Option String
second_part none = none
second_part (some rest) = let id = first_part rest in if id == "" then none else some id

abbrev pub position_of : Option ℕ → Option String → Option Position
position_of (some created_at) (some id) = some (record { created_at = created_at; id = id })
position_of _ _ = none

unfoldable pub decode_cursor : Codec → String → Option Position
decode_cursor codec cursor =
    let text = codec.from_base64url cursor in
    let timestamp = first_part text in
    if timestamp == ""
    then none
    else position_of (codec.parse_date timestamp) (second_part (behind_bar text))

-- `input.cursor === undefined ? null : decodeCursor(input.cursor)`
abbrev pub cursor_position : Codec → Option String → Option Position
cursor_position codec none = none
cursor_position codec (some cursor) = decode_cursor codec cursor

abbrev pub position : PointTransaction → Position
position t = record { created_at = t.created_at; id = t.id }

abbrev pub same_type : TransactionType → TransactionType → Bool
same_type earn earn = true
same_type redeem redeem = true
same_type reversal reversal = true
same_type adjustment adjustment = true
same_type _ _ = false

abbrev pub type_is : Option TransactionType → TransactionType → Bool
type_is none type = true
type_is (some wanted) type = same_type wanted type

abbrev pub entry_summary : PointTransaction → LedgerEntrySummary
entry_summary t = record {
  id = t.id;
  delta = t.delta;
  type = t.type;
  description = t.description;
  source = t.source;
  created_at = t.created_at;
}

-- `hasMore && last ? encodeCursor(last) : null`
abbrev pub cursor_after : Codec → Bool → Option PointTransaction → Option String
cursor_after codec false last = none
cursor_after codec true none = none
cursor_after codec true (some last) = some (encode_cursor codec (position last))

-- `take: limit + 1`, and the page that it shows
unfoldable pub page_of : Codec → ℕ → List PointTransaction → TransactionPage
page_of codec limit entries =
    let has_more = ltb limit (length entries) in
    let items = if has_more then take limit entries else entries in
    record {
      items = map entry_summary items;
      next_cursor = cursor_after codec has_more (last? items);
    }

pub data Direction : Type 0 where
  asc desc : Direction

-- `order === 'newest' ? 'desc' : 'asc'`
abbrev pub direction_of : TransactionOrder → Direction
direction_of newest = desc
direction_of oldest = asc

-- `id_lt` is `<` on ids, as the database compares them.
module _ (id_lt : String → String → Bool) where
  -- Strictly past a position, in the direction of travel: the comparison flips with the order, and so
  -- does its tie-break.
  abbrev pub past : TransactionOrder → Position → Position → Bool
  past newest cursor t =
      ltb t.created_at cursor.created_at
      || (eqb t.created_at cursor.created_at && id_lt t.id cursor.id)
  past oldest cursor t =
      ltb cursor.created_at t.created_at
      || (eqb t.created_at cursor.created_at && id_lt cursor.id t.id)

  abbrev pub beyond_cursor : TransactionOrder → Option Position → PointTransaction → Bool
  beyond_cursor order none t = true
  beyond_cursor order (some cursor) t = past order cursor (position t)

  -- `orderBy: [{ createdAt: direction }, { id: direction }]`: the second key decides where the first
  -- does not.
  abbrev pub created_before : Direction → PointTransaction → PointTransaction → Bool
  created_before desc t u = ltb u.created_at t.created_at
  created_before asc t u = ltb t.created_at u.created_at

  abbrev pub id_before : Direction → PointTransaction → PointTransaction → Bool
  id_before desc t u = id_lt u.id t.id
  id_before asc t u = id_lt t.id u.id

  abbrev pub comes_before : TransactionOrder → PointTransaction → PointTransaction → Bool
  comes_before order t u =
      if created_before (direction_of order) t u
      then true
      else if created_before (direction_of order) u t
      then false
      else id_before (direction_of order) t u

  -- The WHERE clause, less the cursor.
  abbrev pub listed_for : ListTransactionsInput → PointTransaction → Bool
  listed_for input t = t.user_id == input.user_id && type_is input.type t.type

  -- The rows that a query with no `take` would give.
  unfoldable pub matching : Codec → ListTransactionsInput → Db → List PointTransaction
  matching codec input db =
      let order = or_default input.order newest in
      sort (comes_before order) (
        select
          (λ t. listed_for input t && beyond_cursor order (cursor_position codec input.cursor) t)
          db.point_transactions)

  unfoldable pub list_transactions : Codec → ListTransactionsInput → Db → TransactionPage
  list_transactions codec input db =
      page_of codec input.limit (take (suc input.limit) (matching codec input db))
