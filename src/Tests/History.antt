-- ===== src/Tests/History.antt =====
-- A user's history at a few entries, two of them written at one instant.
use Prim.Native.Char.{code}
use text.Mathlib.TextEquality.{Char-path}
use mini_rewards_integration.Prelude.{
  List, ◌↔◌, ℕ, zero, suc, ◌≤◌, String, Bool, true, false, ◌≡◌, ◌&&◌, ◌||◌, ◌==◌, refl, Option,
  none, some, [], ◌∷◌, map, ◌++◌, length, select, arith, ltb, eqb, Bool-cases, inl, inr, eq_iff,
}
use mini_rewards_integration.Prelude.Texts.{cons-present}
use mathlib.Core.List.{Perm}
use mini_rewards_integration.Prelude.Sort.{take, All}
use mini_rewards_integration.Database.Schema.{PointTransaction, Db}
use mini_rewards_integration.Ledger.{proposed}
use mini_rewards_integration.Ledger.History.{
  newest, Codec, ListTransactionsInput, encode_cursor, first_part, behind_bar, decode_cursor,
  position, entry_summary, type_is, beyond_cursor, matching, page_of, list_transactions,
}
use mini_rewards_integration.Ledger.History.Pages.{list_transactions_next}
use mini_rewards_integration.Ledger.History.Shown.{InTime, FollowsCursor, list_transactions_page}
use mini_rewards_integration.Ledger.History.Whole.{
  read_all, read_all_whole, list_transactions_stable,
}
use mini_rewards_integration.Tests.{purchase, empty_shop}
use mini_rewards_integration.Ledger.History.Cursor.{
  has_bar, IsCodec, IsPlain, decode_cursor-encode_cursor,
}
use mini_rewards_integration.Ledger.History.Order.{IsIdOrder, HasUniqueIds}

abbrev unary : ℕ → String
unary zero = "x"
unary (suc n) = String.◌∷◌ "x" (unary n)

abbrev next_count : Option ℕ → Option ℕ
next_count none = some 0
next_count (some n) = some (suc n)

abbrev count : String → Option ℕ
count String.[] = none
count (String.◌∷◌ c s) = next_count (count s)

abbrev pub codec : Codec
codec = record {
  to_base64url = λ s. s;
  from_base64url = λ s. s;
  to_iso = unary;
  parse_date = count;
  last_instant = 1000;
}

unary_plain : (n : ℕ) → has_bar (unary n) ≡ false
unfolding has_bar
unary_plain zero = refl
unary_plain (suc n) = unary_plain n

count-unary : (n : ℕ) → count (unary n) ≡ some n
count-unary zero = refl
count-unary (suc n) = rw (count-unary n)

unary_filled : (n : ℕ) → (unary n == "") ≡ false
unary_filled zero = refl
unary_filled (suc n) = cons-present "x" (unary n)

codec-IsCodec : IsCodec codec
codec-IsCodec = record {
  comes_back = λ s. refl;
  iso_plain = λ t h. unary_plain t;
  iso_filled = λ t h. unary_filled t;
  iso_date = λ t h. count-unary t;
}

pub id_lt : String → String → Bool
id_lt a String.[] = false
id_lt String.[] (String.◌∷◌ d t) = true
id_lt (String.◌∷◌ c s) (String.◌∷◌ d t) =
    ltb (code c) (code d) || (eqb (code c) (code d) && id_lt s t)

id_lt_asym : (a b : String) → id_lt a b ≡ true → id_lt b a ≡ false
unfolding id_lt
id_lt_asym a String.[] h = cc
id_lt_asym String.[] (String.◌∷◌ d t) h = refl
id_lt_asym (String.◌∷◌ c s) (String.◌∷◌ d t) h = ground (arith, id_lt_asym s t)

id_lt_trans : (a b c : String) → id_lt a b ≡ true → id_lt b c ≡ true → id_lt a c ≡ true
unfolding id_lt
id_lt_trans a b String.[] h k = cc
id_lt_trans a String.[] (String.◌∷◌ e u) h k = cc
id_lt_trans String.[] (String.◌∷◌ d t) (String.◌∷◌ e u) h k = refl
id_lt_trans (String.◌∷◌ c s) (String.◌∷◌ d t) (String.◌∷◌ e u) h k =
    ground (arith, id_lt_trans s t u)

apart : (a b : String) → (id_lt a b || id_lt b a) ≡ false → a ≡ b
unfolding id_lt
apart String.[] String.[] h = refl
apart String.[] (String.◌∷◌ d t) h = cc
apart (String.◌∷◌ c s) String.[] h = cc
apart (String.◌∷◌ c s) (String.◌∷◌ d t) h =
    let one : code c ≡ code d = ground (arith, h) in
    let rest : (id_lt s t || id_lt t s) ≡ false = ground (arith, h, one) in
    let p = Char-path c d one in let q = apart s t rest in cc

id_lt_total : (a b : String) → (a == b) ≡ false → (id_lt a b || id_lt b a) ≡ true
id_lt_total a b h = elim (Bool-cases (id_lt a b || id_lt b a)) [
  | inl ordered ↦ ordered
  | inr same ↦ cc (h, (eq_iff a b).1 (apart a b same))
]

id_lt-IsIdOrder : IsIdOrder id_lt
id_lt-IsIdOrder = record { asym = id_lt_asym; trans = id_lt_trans; total = id_lt_total }

abbrev entry : String → String → ℕ → PointTransaction
entry id user_id now = record (proposed id now purchase) {
  user_id = user_id;
  external_event_id = none;
}

-- Three entries of one user, and one of another.
abbrev pub busy_shop : Db
busy_shop = record empty_shop {
  point_transactions =
      entry "t4" "u1" 9 ∷ entry "t3" "u2" 8 ∷ entry "t2" "u1" 7 ∷ entry "t1" "u1" 7 ∷ [];
}

abbrev first_page : ListTransactionsInput
first_page = record { user_id = "u1"; cursor = none; limit = 2; type = none; order = none }

busy_shop-HasUniqueIds : HasUniqueIds busy_shop.point_transactions
busy_shop-HasUniqueIds = (refl, (refl, (refl, (refl, tt))))

carried :
    (id user_id : String) (now : ℕ)
    → has_bar id ≡ false
    → (id == "") ≡ false
    → now ≤ 1000
    → IsPlain codec (position (entry id user_id now))
carried id user_id now no_bar filled dated = record {
  no_bar = no_bar;
  filled = filled;
  dated = dated;
}

busy_shop-IsPlain : All (λ t. IsPlain codec (position t)) busy_shop.point_transactions
unfolding has_bar
busy_shop-IsPlain = (
  carried "t4" "u1" 9 refl refl (omega arith),
  (
    carried "t3" "u2" 8 refl refl (omega arith),
    (
      carried "t2" "u1" 7 refl refl (omega arith),
      (carried "t1" "u1" 7 refl refl (omega arith), tt),
    ),
  ),
)

decode_cursor-encode_cursor_example :
    decode_cursor codec (encode_cursor codec (position (entry "t2" "u1" 7)))
    ≡ some (position (entry "t2" "u1" 7))
unfolding has_bar
decode_cursor-encode_cursor_example =
    decode_cursor-encode_cursor codec (position (entry "t2" "u1" 7)) codec-IsCodec
      (carried "t2" "u1" 7 refl refl (omega arith))

-- A program on a history, with its operations open.
history_run : {S A : Type 0} → (S → A) → S → A
unfolding id_lt list_transactions matching page_of encode_cursor decode_cursor first_part behind_bar
history_run f s = f s

first_cursor :
    (list_transactions id_lt codec first_page busy_shop).next_cursor
    ≡ some (encode_cursor codec (position (entry "t2" "u1" 7)))
unfolding history_run
first_cursor = refl

abbrev second_page : ListTransactionsInput
second_page = record first_page {
  cursor = some (encode_cursor codec (position (entry "t2" "u1" 7)));
}

list_transactions_next_example :
    (list_transactions id_lt codec first_page busy_shop).items
      ++ map entry_summary (matching id_lt codec second_page busy_shop)
    ≡ map entry_summary (matching id_lt codec first_page busy_shop)
list_transactions_next_example =
    list_transactions_next id_lt codec first_page busy_shop id_lt-IsIdOrder codec-IsCodec
      busy_shop-HasUniqueIds busy_shop-IsPlain first_cursor

three_match : length (matching id_lt codec first_page busy_shop) ≡ 3
unfolding history_run
three_match = refl

read_all_whole_example :
    read_all id_lt codec busy_shop 4 first_page
    ≡ some (map entry_summary (matching id_lt codec first_page busy_shop))
read_all_whole_example =
    read_all_whole id_lt codec busy_shop 4 first_page id_lt-IsIdOrder codec-IsCodec
      busy_shop-HasUniqueIds busy_shop-IsPlain (omega arith) (omega (arith, three_match))

list_transactions_page_example :
    (rows : List PointTransaction) × ((list_transactions id_lt codec first_page busy_shop).items
      ≡ map entry_summary (take first_page.limit rows))
    × (length (list_transactions id_lt codec first_page busy_shop).items ≤ first_page.limit)
    × InTime id_lt newest rows
    × Perm rows (
        select
          (λ t. (t.user_id == "u1" && type_is none t.type) && beyond_cursor id_lt newest none t)
          busy_shop.point_transactions)
    × ((t : PointTransaction)
        → (beyond_cursor id_lt newest none t ≡ true) ↔ FollowsCursor id_lt newest none t)
list_transactions_page_example =
    list_transactions_page id_lt codec first_page busy_shop id_lt-IsIdOrder busy_shop-HasUniqueIds

list_transactions_stable_example :
    list_transactions id_lt codec second_page
      (record busy_shop { point_transactions = entry "t5" "u1" 12 ∷ busy_shop.point_transactions })
    ≡ list_transactions id_lt codec second_page busy_shop
unfolding has_bar
list_transactions_stable_example =
    list_transactions_stable id_lt codec second_page busy_shop (entry "t5" "u1" 12)
      (decode_cursor-encode_cursor codec (position (entry "t2" "u1" 7)) codec-IsCodec
        (carried "t2" "u1" 7 refl refl (omega arith)))
      refl
