-- ===== src/Http/Users.antt =====
-- packages/api/src/modules/user/user.routes.ts and reward/reward.routes.ts: the acting user's balance and
-- history, the accounts of the demonstration, and the catalogue.
use Prim.Native.String.{◌++◌}
use mini_rewards_integration.Prelude.{
  ℕ, String, Bool, Option, none, some, List, [], ◌∷◌, map, ◌==◌, leb, if◌then◌else◌,
}
use mini_rewards_integration.Database.Json.{Json, text, Fields}
use mini_rewards_integration.Database.Schema.{TransactionType, earn, redeem, reversal, adjustment}
use mini_rewards_integration.Database.Exec.{Client, pure, gets, ◌>>=◌}
use mini_rewards_integration.Ledger.History.{
  TransactionPage, TransactionOrder, newest, oldest, Codec, list_transactions,
}
use mini_rewards_integration.Catalogue.{
  RewardSummary, list_rewards, MeResponse, get_me, DemoAccount, list_users,
}
use mini_rewards_integration.Webhook.Event.{lookup}
use mini_rewards_integration.Auth.{AuthPlatform, SessionUser}
use mini_rewards_integration.Http.{
  Reply, refusal, answer, Parsed, parsed, issues, Zod, both, parsed_map, checked, int_value,
  invalid_request,
}
use mini_rewards_integration.Http.Guards.{require_user, acting_user, guarded}

unfoldable pub balance_answer : Option MeResponse → Reply MeResponse
balance_answer none = refusal 404 "user_not_found" "No such user."
balance_answer (some me) = answer 200 me

unfoldable pub balance_route : AuthPlatform → ℕ → Option String → Client (Reply MeResponse)
balance_route platform now cookie =
    guarded platform now cookie require_user
      (λ caller. do user ← acting_user caller; me ← gets (get_me user.id); pure (balance_answer me))

pub record TransactionQuery : Type 0 where
  pub cursor : Option String
  pub limit : ℕ
  pub type : Option TransactionType
  pub order : TransactionOrder

-- The messages with the path before each: `${path}: ${message}`
abbrev pub at_path : {A : Type 0} → String → Parsed A → Parsed A
at_path name (parsed a) = parsed a
at_path name (issues messages) = issues (map (λ m. name ++ (": " ++ m)) messages)

abbrev pub cursor_value : Zod → Option Json → Parsed (Option String)
cursor_value zod none = parsed none
cursor_value zod (some (text s)) = checked (leb 1 (zod.units s)) (zod.too_small "cursor" 1) (some s)
cursor_value zod (some value) = issues (zod.message "cursor" (some value) ∷ [])

-- Twenty where none is asked for.
abbrev pub limit_value : Zod → Option Json → Parsed ℕ
limit_value zod none = parsed 20
limit_value zod (some value) = int_value zod "limit" 1 100 (some value)

abbrev pub transaction_type : String → Option TransactionType
transaction_type s =
    if s == "EARN"
    then some earn
    else if s == "REDEEM"
    then some redeem
    else if s == "REVERSAL"
    then some reversal
    else if s == "ADJUSTMENT"
    then some adjustment
    else none

abbrev pub known_value : {A : Type 0} → Zod → String → Json → Option A → Parsed A
known_value zod name value none = issues (zod.message name (some value) ∷ [])
known_value zod name value (some a) = parsed a

abbrev pub type_value : Zod → Option Json → Parsed (Option TransactionType)
type_value zod none = parsed none
type_value zod (some (text s)) =
    parsed_map some (known_value zod "type" (text s) (transaction_type s))
type_value zod (some value) = issues (zod.message "type" (some value) ∷ [])

abbrev pub transaction_order : String → Option TransactionOrder
transaction_order s =
    if s == "newest" then some newest else if s == "oldest" then some oldest else none

abbrev pub order_value : Zod → Option Json → Parsed TransactionOrder
order_value zod none = parsed newest
order_value zod (some (text s)) = known_value zod "order" (text s) (transaction_order s)
order_value zod (some value) = issues (zod.message "order" (some value) ∷ [])

unfoldable pub transaction_query_schema : Zod → Fields → Parsed TransactionQuery
transaction_query_schema zod fields =
    parsed_map (λ q. record { cursor = q.0.0.0; limit = q.0.0.1; type = q.0.1; order = q.1 })
      (both
        (both
          (both (at_path "cursor" (cursor_value zod (lookup "cursor" fields)))
            (at_path "limit" (limit_value zod (lookup "limit" fields))))
          (at_path "type" (type_value zod (lookup "type" fields))))
        (at_path "order" (order_value zod (lookup "order" fields))))

module _ (id_lt : String → String → Bool) (codec : Codec) where
  unfoldable pub history_parsed :
      SessionUser → Parsed TransactionQuery → Client (Reply TransactionPage)
  history_parsed user (issues messages) = pure (invalid_request messages)
  history_parsed user (parsed query) = do
    page ← gets (
        list_transactions id_lt codec (record {
          user_id = user.id;
          cursor = query.cursor;
          limit = query.limit;
          type = query.type;
          order = some query.order;
        }))
    pure (answer 200 page)

  unfoldable pub history_route :
      AuthPlatform → Zod → ℕ → Option String → Fields → Client (Reply TransactionPage)
  history_route platform zod now cookie fields = guarded platform now cookie require_user (λ caller.
      do user ← acting_user caller; history_parsed user (transaction_query_schema zod fields))

unfoldable pub demo_route : (String → String → Bool) → Client (Reply (List DemoAccount))
demo_route name_lt = do users ← gets (list_users name_lt); pure (answer 200 users)

unfoldable pub catalogue_route : Client (Reply (List RewardSummary))
catalogue_route = do rewards ← gets list_rewards; pure (answer 200 rewards)
