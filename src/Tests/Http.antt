-- ===== src/Tests/Http.antt =====
-- Requests to the routes, one after another, with the results at each.
use mini_rewards_integration.Prelude.{
  ℕ, zero, suc, ap, ◌+◌, ◌≤◌, String, true, false, ◌≡◌, ◌==◌, refl, length, none, some, [], ◌∷◌,
  arith,
}
use mini_rewards_integration.Prelude.Int.{pos}
use mini_rewards_integration.Prelude.Texts.{cons-present}
use mini_rewards_integration.Database.Json.{Json, text, object, Fields, end, field}
use mini_rewards_integration.Database.Schema.{user, fulfilled, LoginSession, Db}
use mini_rewards_integration.Database.Exec.{ok, transaction}
use mini_rewards_integration.Ledger.{append_entry}
use mini_rewards_integration.Ledger.Balances.{cached, IsReconciled}
use mini_rewards_integration.Ledger.Unique.{HasUniqueEvents}
use mini_rewards_integration.Ledger.History.{newest, TransactionPage, list_transactions}
use mini_rewards_integration.Redemption.{RedemptionOutcome, current_balance}
use mini_rewards_integration.Webhook.Signature.{whole, Crypto, valid}
use mini_rewards_integration.Webhook.Route.{once, verification}
use mini_rewards_integration.Auth.{create_session, session_user, session_ttl_ms}
use mini_rewards_integration.Http.{refusal, answer, Zod}
use mini_rewards_integration.Http.Guards.{resolve_user, require_user, acting_user, guarded}
use mini_rewards_integration.Http.Accounts.{
  Answer, session_cookie, cleared_cookie, SessionDraws, register_schema, register_and_sign_in,
  registered_or_taken, register_parsed, register_route, end_session, logout_route, me_route,
}
use mini_rewards_integration.Http.Redemptions.{
  redeem_body_schema, redeemed_or_refused, redeem_parsed, redeem_for, redeem_route,
}
use mini_rewards_integration.Http.Users.{transaction_query_schema, history_parsed, history_route}
use mini_rewards_integration.Http.Forms.{SimulateInput}
use mini_rewards_integration.Http.Admin.{
  Simulation, simulated_request, deliveries_answer, admin_route,
}
use mini_rewards_integration.Http.Sessions.{register_route_session, logout_route_ends}
use mini_rewards_integration.Http.Retries.{redeem_route_retry}
use mini_rewards_integration.Http.Limits.{history_route_bounded}
use mini_rewards_integration.Http.Simulated.{simulated_request_verifies}
use mini_rewards_integration.System.{started, next, redeemed, asked_me, reachable_books}
use mini_rewards_integration.System.Retried.{append_entry_once}
use mini_rewards_integration.Tests.{
  ada, empty_shop, purchase, earned, ledger_run, after_purchase, after_purchase-IsReconciled,
}
use mini_rewards_integration.Tests.Auth.{platform, size, draws, auth_run}
use mini_rewards_integration.Tests.Redemption.{lucky, unlucky, redemption_run}
use mini_rewards_integration.Tests.Webhook.{context}
use mini_rewards_integration.Tests.History.{codec, id_lt, busy_shop}

abbrev zod : Zod
zod = record {
  trim = λ s. s;
  is_email = λ s. true;
  is_uuid = λ s. true;
  is_datetime = λ s. true;
  units = size;
  coerce_int = λ value. some (pos 2);
  message = λ name value. "Invalid";
  too_small = λ name n. "Too small";
  too_big = λ name n. "Too big";
}

abbrev sign_up : Json
sign_up = object (
    field "email" (text "bob@shop.example")
      (field "password" (text "secret-1") (field "displayName" (text "Bob") end)))

abbrev drawn : SessionDraws
drawn = record { token = "tok"; now = 9 }

abbrev welcome : Answer
welcome = record {
  user = record { id = "u2"; external_ref = "local:77"; display_name = "Bob"; role = user };
  cookie = session_cookie platform "tok";
}

abbrev joined_shop : Db
joined_shop = (register_route platform zod draws drawn sign_up empty_shop).1

-- A request, with the routes of accounts open.
routes_run : {S A : Type 0} → (S → A) → S → A
unfolding auth_run register_schema register_and_sign_in registered_or_taken register_parsed
    register_route end_session logout_route me_route resolve_user require_user acting_user guarded
routes_run m s = m s

run-join :
    register_route platform zod draws drawn sign_up empty_shop
    ≡ (ok (answer 201 welcome), joined_shop)
unfolding routes_run
run-join = refl

register_route_session_example :
    (session_cookie platform "tok" ≡ session_cookie platform "tok")
    × (me_route platform 10 (some "tok") joined_shop ≡ (ok (answer 200 welcome.user), joined_shop))
    × (admin_route platform 10 (some "tok") deliveries_answer joined_shop
        ≡ (ok (refusal 403 "forbidden" "This area is for administrator accounts."), joined_shop))
register_route_session_example =
    register_route_session platform zod draws drawn sign_up 10 deliveries_answer empty_shop refl
      (omega arith) run-join

abbrev left_shop : Db
left_shop = (logout_route platform (some "tok") joined_shop).1

run-leave :
    logout_route platform (some "tok") joined_shop
    ≡ (ok (answer 204 (cleared_cookie platform)), left_shop)
unfolding routes_run
run-leave = refl

logout_route_ends_example :
    me_route platform 10 (some "tok") left_shop
    ≡ (ok (refusal 401 "unauthenticated" "Sign in to continue."), left_shop)
logout_route_ends_example = logout_route_ends platform "tok" 10 joined_shop run-leave

-- Ada is signed in, and has the points for a mug.
abbrev ada_session : LoginSession
ada_session = record {
  id = "htok";
  user_id = "u1";
  expires_at = 5 + session_ttl_ms;
  created_at = 5;
}

abbrev open_shop : Db
open_shop = record after_purchase { sessions = ada_session ∷ [] }

abbrev order_mug : Json
order_mug = object (field "rewardId" (text "r1") end)

abbrev mug_sold : Db
mug_sold = (redeem_route platform zod 6 lucky (some "tok") (once "k1") order_mug open_shop).1

abbrev sold : RedemptionOutcome
sold = record {
  redemption_id = "d1";
  status = fulfilled;
  reward_name = "Mug";
  cost_points = 30;
  balance_after = pos 20;
  fulfillment_ref = some "sim_ref1";
  failure_reason = none;
  replay = false;
}

signed_in_lem :
    (db : Db)
    → db.sessions ≡ ada_session ∷ []
    → db.users ≡ ada ∷ []
    → resolve_user platform 7 (some "tok") db ≡ (ok (some (session_user ada)), db)
unfolding routes_run
signed_in_lem db sessions users = rw sessions (rw users refl)

run-before :
    transaction (append_entry "t1" 7 purchase) (record empty_shop { sessions = ada_session ∷ [] })
    ≡ (ok earned, open_shop)
unfolding ledger_run
run-before = refl

-- The purchase is reported again when its points are spent in part.
append_entry_once_example : transaction (append_entry "t9" 9 purchase) mug_sold ≡ (
  ok (record {
    transaction_id = "t1";
    balance_after = cached "u1" mug_sold.user_balances;
    duplicate = true;
  }),
  mug_sold,
)
append_entry_once_example =
    append_entry_once platform zod "t1" "t9" 7 9 purchase "evt1"
      (record empty_shop { sessions = ada_session ∷ [] }) refl run-before
      (next started (redeemed 6 lucky (some "tok") (once "k1") order_mug))

ada_in : resolve_user platform 6 (some "tok") open_shop ≡ (ok (some (session_user ada)), open_shop)
unfolding routes_run
ada_in = refl

run-order :
    redeem_route platform zod 6 lucky (some "tok") (once "k1") order_mug open_shop
    ≡ (ok (answer 201 sold), mug_sold)
unfolding routes_run redemption_run redeem_body_schema redeemed_or_refused redeem_parsed redeem_for
    redeem_route
run-order = refl

ada_still_in :
    resolve_user platform 7 (some "tok") mug_sold ≡ (ok (some (session_user ada)), mug_sold)
unfolding routes_run redemption_run redeem_body_schema redeemed_or_refused redeem_parsed redeem_for
    redeem_route
ada_still_in = signed_in_lem mug_sold refl refl

redeem_route_retry_example :
    redeem_route platform zod 7 unlucky (some "tok") (once "k1") order_mug mug_sold ≡ (
      ok (
          answer 200
            (record sold { balance_after = current_balance "u1" mug_sold; replay = true })),
      mug_sold,
    )
redeem_route_retry_example =
    redeem_route_retry platform zod 6 7 lucky unlucky (some "tok") (some "tok") (once "k1")
      order_mug (session_user ada) open_shop (refl, tt) refl ada_in run-order ada_still_in

abbrev read_shop : Db
read_shop = (transaction (create_session platform "tok" 5 "u1") busy_shop).1

abbrev two_at_most : Fields
two_at_most = field "limit" (text "2") end

abbrev two_entries : TransactionPage
two_entries =
    list_transactions id_lt codec
      (record { user_id = "u1"; cursor = none; limit = 2; type = none; order = some newest })
      read_shop

run-read :
    history_route id_lt codec platform zod 6 (some "tok") two_at_most read_shop
    ≡ (ok (answer 200 two_entries), read_shop)
unfolding routes_run transaction_query_schema history_parsed history_route
run-read = refl

history_route_bounded_example : length two_entries.items ≤ 100
history_route_bounded_example =
    history_route_bounded id_lt codec platform zod 6 (some "tok") two_at_most read_shop run-read

-- Numbers as tally marks, after one sign.
abbrev marks : ℕ → String
marks zero = ""
marks (suc n) = String.◌∷◌ "i" (marks n)

abbrev tick : ℕ → String
tick n = String.◌∷◌ "=" (marks n)

abbrev ticks_of : String → ℕ
ticks_of String.[] = 0
ticks_of (String.◌∷◌ c s) = suc (ticks_of s)

abbrev ticks : String → ℕ
ticks String.[] = 0
ticks (String.◌∷◌ c s) = ticks_of s

marks-read : (n : ℕ) → ticks_of (marks n) ≡ n
marks-read zero = refl
marks-read (suc n) = ap suc (marks-read n)

abbrev digests : Crypto
digests = record {
  hmac = λ secret message. String.◌∷◌ "h" message;
  byte_length = λ s. 64;
  timing_safe_equal = λ a b. a == b;
  number = λ s. some (whole (ticks s));
}

abbrev simulation : Simulation
simulation = record {
  uuid = "77";
  context = record context { crypto = digests };
  stringify = λ value. "{}";
  show_number = tick;
}

abbrev simulated_purchase : SimulateInput
simulated_purchase = record {
  user_ref = "ada";
  activity_type = "PURCHASE";
  occurred_at = none;
  event_id = none;
}

simulated_request_verifies_example :
    verification simulation.context (simulated_request simulation simulated_purchase) ≡ valid
simulated_request_verifies_example =
    simulated_request_verifies simulation simulated_purchase (λ a b same. refl)
      (λ key message. cons-present "h" message)
      λ n up_to. (cons-present "=" (marks n), ap (λ m. some (whole m)) (marks-read n))

-- A mug is redeemed, and then a stranger asks who is signed in.
abbrev stranger_came : Db
stranger_came = (me_route platform 8 none mug_sold).1

reachable_books_example :
    IsReconciled stranger_came × HasUniqueEvents stranger_came.point_transactions
reachable_books_example =
    reachable_books platform zod
      (next (next started (redeemed 6 lucky (some "tok") (once "k1") order_mug)) (asked_me 8 none))
      after_purchase-IsReconciled (refl, tt)
