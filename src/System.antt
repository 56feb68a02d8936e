-- ===== src/System.antt =====
-- The service as a whole (packages/api/src/app.ts): the requests that its routes answer, and the backfill
-- that an operator runs (backfillUnmatched of packages/api/src/modules/webhook/webhook.service.ts), as
-- steps of one database.
pub mod Retried
use mini_rewards_integration.Prelude.{ℕ, String, Bool, Option, List}
use mini_rewards_integration.Database.Json.{Json, Fields}
use mini_rewards_integration.Database.Schema.{Db}
use mini_rewards_integration.Database.Exec.{transaction}
use mini_rewards_integration.Database.Keeps.{Preserves-transaction}
use mini_rewards_integration.Ledger.Invariant.{
  IsLedgerInvariant, IsReconciled-IsLedgerInvariant, UniqueEvents, UniqueEvents-IsLedgerInvariant,
}
use mini_rewards_integration.Ledger.Balances.{IsReconciled}
use mini_rewards_integration.Ledger.Unique.{HasUniqueEvents}
use mini_rewards_integration.Ledger.History.{Codec}
use mini_rewards_integration.Redemption.{Draws}
use mini_rewards_integration.Allocation.{Texts, AllocationDraws}
use mini_rewards_integration.Webhook.{Run}
use mini_rewards_integration.Webhook.Event.{Platform}
use mini_rewards_integration.Webhook.Backfill.{BackfillFilter, backfill_unmatched}
use mini_rewards_integration.Webhook.Books.{backfill_unmatched-Keeps}
use mini_rewards_integration.Webhook.Route.{Header, Context, Request, handle_delivery}
use mini_rewards_integration.Webhook.Route.Replies.{handle_delivery-Preserves}
use mini_rewards_integration.Auth.{AuthPlatform, RegisterDraws}
use mini_rewards_integration.Http.{Zod}
use mini_rewards_integration.Http.Accounts.{
  SessionDraws, register_route, login_route, logout_route, me_route,
}
use mini_rewards_integration.Http.Redemptions.{redeem_route}
use mini_rewards_integration.Http.Users.{balance_route, history_route, demo_route, catalogue_route}
use mini_rewards_integration.Http.Admin.{
  Simulation, simulate_route, create_reward_route, allocate_route, reconcile_route,
  deliveries_route,
}
use mini_rewards_integration.Http.Kept.{
  register_route-Preserves, login_route-Preserves, logout_route-Preserves, me_route-Preserves,
  redeem_route-Preserves,
}
use mini_rewards_integration.Http.Managed.{
  simulate_route-Preserves, create_reward_route-Preserves, allocate_route-Preserves,
  reconcile_route-Preserves, demo_route-Preserves, catalogue_route-Preserves,
  deliveries_route-Preserves, balance_route-Preserves, history_route-Preserves,
}

-- One request, or one backfill, from the tables before it to those after it. What a step draws is its own.
module _ (platform : AuthPlatform) (zod : Zod) where
  pub data Step (db : Db) : Db → Type 0 where
    delivered :
        (context : Context) (request : Request) → Step db (handle_delivery context request db).1
    backfilled :
        (runtime : Platform) (runs : ℕ → Run) (filter : BackfillFilter)
        → Step db (transaction (backfill_unmatched runtime runs filter) db).1
    registered :
        (draws : RegisterDraws) (session : SessionDraws) (body : Json)
        → Step db (register_route platform zod draws session body db).1
    logged_in :
        (salt : List ℕ) (session : SessionDraws) (body : Json)
        → Step db (login_route platform zod salt session body db).1
    logged_out : (cookie : Option String) → Step db (logout_route platform cookie db).1
    asked_me : (now : ℕ) (cookie : Option String) → Step db (me_route platform now cookie db).1
    redeemed :
        (now : ℕ) (draws : Draws) (cookie : Option String) (header : Header) (body : Json)
        → Step db (redeem_route platform zod now draws cookie header body db).1
    asked_balance :
        (now : ℕ) (cookie : Option String) → Step db (balance_route platform now cookie db).1
    asked_history :
        (id_lt : String → String → Bool) (codec : Codec) (now : ℕ) (cookie : Option String)
        (query : Fields)
        → Step db (history_route id_lt codec platform zod now cookie query db).1
    asked_demo : (name_lt : String → String → Bool) → Step db (demo_route name_lt db).1
    asked_catalogue : Step db (catalogue_route db).1
    simulated :
        (now : ℕ) (cookie : Option String) (simulation : Simulation) (body : Json)
        → Step db (simulate_route platform now cookie zod simulation body db).1
    created_reward :
        (to_upper_case : String → String) (now created_at : ℕ) (cookie : Option String)
        (id : String) (body : Json)
        → Step db
            (create_reward_route platform now cookie to_upper_case zod id created_at body db).1
    allocated :
        (texts : Texts) (draws : ℕ → AllocationDraws) (now : ℕ) (cookie : Option String)
        (body : Json)
        → Step db (allocate_route platform now cookie zod texts draws body db).1
    asked_reconcile :
        (name_le : String → String → Bool) (now : ℕ) (cookie : Option String)
        → Step db (reconcile_route platform now cookie name_le db).1
    asked_deliveries :
        (now : ℕ) (cookie : Option String) → Step db (deliveries_route platform now cookie db).1

  -- The tables that steps lead to, one after another.
  pub data Reach (start : Db) : Db → Type 0 where
    started : Reach start start
    next : {db after : Db} → Reach start db → Step db after → Reach start after

  module _ (P : Db → Type 0) (laws : IsLedgerInvariant P) where
    step-keeps : {db after : Db} → Step db after → P db → P after
    step-keeps {db} (delivered context request) h =
        (handle_delivery-Preserves P laws context request).at db h
    step-keeps {db} (backfilled runtime runs filter) h =
        (Preserves-transaction _ (backfill_unmatched-Keeps P laws runtime runs filter)).at db h
    step-keeps {db} (registered draws session body) h =
        (register_route-Preserves P laws platform zod draws session body).at db h
    step-keeps {db} (logged_in salt session body) h =
        (login_route-Preserves P laws platform zod salt session body).at db h
    step-keeps {db} (logged_out cookie) h = (logout_route-Preserves P laws platform cookie).at db h
    step-keeps {db} (asked_me now cookie) h =
        (me_route-Preserves P laws platform now cookie).at db h
    step-keeps {db} (redeemed now draws cookie header body) h =
        (redeem_route-Preserves P laws platform zod now draws cookie header body).at db h
    step-keeps {db} (asked_balance now cookie) h =
        (balance_route-Preserves P laws platform now cookie).at db h
    step-keeps {db} (asked_history id_lt codec now cookie query) h =
        (history_route-Preserves P laws platform now cookie id_lt codec zod query).at db h
    step-keeps {db} (asked_demo name_lt) h = (demo_route-Preserves P laws name_lt).at db h
    step-keeps {db} asked_catalogue h = (catalogue_route-Preserves P laws).at db h
    step-keeps {db} (simulated now cookie simulation body) h =
        (simulate_route-Preserves P laws platform now cookie zod simulation body).at db h
    step-keeps {db} (created_reward to_upper_case now created_at cookie id body) h =
        (create_reward_route-Preserves P laws platform now cookie to_upper_case zod id created_at
            body).at
          db h
    step-keeps {db} (allocated texts draws now cookie body) h =
        (allocate_route-Preserves P laws platform now cookie zod texts draws body).at db h
    step-keeps {db} (asked_reconcile name_le now cookie) h =
        (reconcile_route-Preserves P laws platform now cookie name_le).at db h
    step-keeps {db} (asked_deliveries now cookie) h =
        (deliveries_route-Preserves P laws platform now cookie).at db h

    pub reach-keeps : {start db : Db} → Reach start db → P start → P db
    reach-keeps started h = h
    reach-keeps (next reached step) h = step-keeps step (reach-keeps reached h)

  -- Whatever requests the service answers and backfills it runs, one after another and with whatever
  -- draws, from tables where it is so: every cached balance is the sum of its ledger, and no event of a
  -- source stands in the ledger twice.
  pub reachable_books :
      {start db : Db}
      → Reach start db
      → IsReconciled start
      → HasUniqueEvents start.point_transactions
      → IsReconciled db × HasUniqueEvents db.point_transactions
  reachable_books reached balanced unique = (
    reach-keeps IsReconciled IsReconciled-IsLedgerInvariant reached balanced,
    reach-keeps UniqueEvents UniqueEvents-IsLedgerInvariant reached unique,
  )
