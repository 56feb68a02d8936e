-- ===== src/Http/Managed.antt =====
-- The administrator's routes (packages/api/src/modules/dev/dev.routes.ts) and the reads of
-- packages/api/src/modules/user/user.routes.ts, and the properties that the ledger keeps.
use mini_rewards_integration.Prelude.{
  ℕ, String, Bool, ◌≡◌, ◌==◌, leb, inl, inr, refl, exists, Option, none, some, List, Bool-cases,
}
use mini_rewards_integration.Ledger.Reconcile.{reconcile, reported, overflows}
use mini_rewards_integration.Database.Json.{Json, Fields}
use mini_rewards_integration.Database.Schema.{Reward, Db}
use mini_rewards_integration.Database.Exec.{
  insufficient_points, ledger_entry_not_found, reward_not_found, reward_unavailable, sku_taken,
  email_already_registered, unexpected, database, Result, ok, err, Client,
}
use mini_rewards_integration.Database.Keeps.{
  Keeps, keeps_rules, Preserves, preserves_rules, Preserves-transaction,
}
use mini_rewards_integration.Ledger.Invariant.{IsLedgerInvariant}
use mini_rewards_integration.Ledger.History.{Codec}
use mini_rewards_integration.Catalogue.{
  RewardSummary, CreateRewardInput, insert_reward, create_unless_taken, create_reward,
}
use mini_rewards_integration.Allocation.{
  Texts, AllocationDraws, AllocationOutcome, AllocateRewardInput,
}
use mini_rewards_integration.Allocation.Books.{allocate_reward-Preserves}
use mini_rewards_integration.Webhook.Route.{Reply as WebhookReply}
use mini_rewards_integration.Webhook.Route.Replies.{handle_delivery-Preserves}
use mini_rewards_integration.Auth.{AuthPlatform, SessionUser}
use mini_rewards_integration.Http.{Reply, Parsed, parsed, issues, Zod}
use mini_rewards_integration.Http.Guards.{acting_user}
use mini_rewards_integration.Http.Kept.{told, guarded-Preserves, acting_user-Preserves}
use mini_rewards_integration.Http.Forms.{SimulateInput}
use mini_rewards_integration.Http.Users.{
  TransactionQuery, balance_route, demo_route, catalogue_route, history_parsed, history_route,
}
use mini_rewards_integration.Http.Admin.{
  Simulation, injected, passed_through, simulate_parsed, created_or_taken, create_reward_parsed,
  allocated_or_missing, allocate_parsed, reconcile_answer, deliveries_answer, admin_route,
  simulate_route, create_reward_route, allocate_route, reconcile_route, deliveries_route,
}

created_lem : (r : Result RewardSummary × Db) → (created_or_taken r).1 ≡ r.1
unfolding created_or_taken
created_lem (ok a, db) = refl
created_lem (err (insufficient_points u b n), db) = refl
created_lem (err (ledger_entry_not_found i), db) = refl
created_lem (err (reward_not_found i), db) = refl
created_lem (err (reward_unavailable w m), db) = refl
created_lem (err (sku_taken s), db) = refl
created_lem (err email_already_registered, db) = refl
created_lem (err (unexpected m), db) = refl
created_lem (err (database v), db) = refl

allocated_lem : (r : Result (List AllocationOutcome) × Db) → (allocated_or_missing r).1 ≡ r.1
unfolding allocated_or_missing
allocated_lem (ok a, db) = refl
allocated_lem (err (insufficient_points u b n), db) = refl
allocated_lem (err (ledger_entry_not_found i), db) = refl
allocated_lem (err (reward_not_found i), db) = refl
allocated_lem (err (reward_unavailable w m), db) = refl
allocated_lem (err (sku_taken s), db) = refl
allocated_lem (err email_already_registered, db) = refl
allocated_lem (err (unexpected m), db) = refl
allocated_lem (err (database v), db) = refl

injected_lem : (r : Result WebhookReply × Db) → (injected r).1 ≡ r.1
injected_lem (ok reply, db) = refl
injected_lem (err e, db) = refl

module _ (P : Db → Type 0) (laws : IsLedgerInvariant P) where
  insert_reward-Keeps : (row : Reward) → Keeps P (insert_reward row)
  unfolding insert_reward
  insert_reward-Keeps row = record {
    at = λ s h. elim (Bool-cases (leb row.cost_points 0)) [
      | inl worthless ↦ rw worthless tt
      | inr priced ↦ elim (Bool-cases (exists (λ r. r.id == row.id) s.db.rewards)) [
        | inl taken ↦ rw (priced, taken) tt
        | inr free ↦ elim (Bool-cases (exists (λ r. r.sku == row.sku) s.db.rewards)) [
          | inl taken ↦ rw (priced, free, taken) tt
          | inr unused ↦ rw (priced, free, unused) (laws.apart s.db _ refl refl h)
        ]
      ]
    ];
  }

  ruleset admin_rules = (preserves_rules, keeps_rules, insert_reward-Keeps)

  create_unless_taken-Keeps :
      (trim to_upper_case : String → String) (row : Reward) (found : Option Reward)
      → Keeps P (create_unless_taken trim to_upper_case row found)
  unfolding create_unless_taken
  create_unless_taken-Keeps trim to_upper_case row none = search admin_rules
  create_unless_taken-Keeps trim to_upper_case row (some reward) = search admin_rules

  create_reward-Keeps :
      (trim to_upper_case : String → String) (id : String) (now : ℕ) (input : CreateRewardInput)
      → Keeps P (create_reward trim to_upper_case id now input)
  unfolding create_reward
  create_reward-Keeps trim to_upper_case id now input =
      search (admin_rules, create_unless_taken-Keeps)

  create_reward_parsed-Preserves :
      (trim to_upper_case : String → String) (id : String) (now : ℕ)
      (input : Parsed CreateRewardInput)
      → Preserves P (create_reward_parsed trim to_upper_case id now input)
  unfolding create_reward_parsed
  create_reward_parsed-Preserves trim to_upper_case id now (issues messages) = search admin_rules
  create_reward_parsed-Preserves trim to_upper_case id now (parsed input) =
      told P laws created_or_taken _ created_lem
        (Preserves-transaction _ (create_reward-Keeps trim to_upper_case id now input))

  allocate_parsed-Preserves :
      (texts : Texts) (draws : ℕ → AllocationDraws) (input : Parsed AllocateRewardInput)
      → Preserves P (allocate_parsed texts draws input)
  unfolding allocate_parsed
  allocate_parsed-Preserves texts draws (issues messages) = search admin_rules
  allocate_parsed-Preserves texts draws (parsed input) =
      told P laws allocated_or_missing _ allocated_lem
        (allocate_reward-Preserves P laws texts draws input)

  passed_through_lem :
      (event_id : String) (r : Result WebhookReply × Db)
      → (passed_through event_id (injected r)).1 ≡ r.1
  unfolding passed_through
  passed_through_lem event_id r = injected_lem r

  simulate_parsed-Preserves :
      (simulation : Simulation) (input : Parsed SimulateInput)
      → Preserves P (simulate_parsed simulation input)
  unfolding simulate_parsed
  simulate_parsed-Preserves simulation (issues messages) = search admin_rules
  simulate_parsed-Preserves simulation (parsed input) =
      told P laws (λ r. passed_through _ (injected r)) _ (passed_through_lem _)
        (handle_delivery-Preserves P laws simulation.context _)

  reconcile-Preserves : (name_le : String → String → Bool) → Preserves P (reconcile name_le)
  unfolding reconcile
  reconcile-Preserves name_le = record {
    at = λ db h. elim (Bool-cases (exists overflows (reported name_le db))) [
      | inl wide ↦ rw wide h
      | inr narrow ↦ rw narrow h
    ];
  }

  reconcile_answer-Preserves :
      (name_le : String → String → Bool) → Preserves P (reconcile_answer name_le)
  unfolding reconcile_answer
  reconcile_answer-Preserves name_le = search (admin_rules, reconcile-Preserves)

  deliveries_answer-Preserves : Preserves P deliveries_answer
  unfolding deliveries_answer
  deliveries_answer-Preserves = search admin_rules

  module _ (platform : AuthPlatform) (now : ℕ) (cookie : Option String) where
    admin_route-Preserves :
        {B : Type 0} (handler : Client (Reply B))
        → Preserves P handler
        → Preserves P (admin_route platform now cookie handler)
    unfolding admin_route
    admin_route-Preserves handler kept =
        guarded-Preserves P laws platform now cookie _ _ (λ caller. kept)

    pub simulate_route-Preserves :
        (zod : Zod) (simulation : Simulation) (body : Json)
        → Preserves P (simulate_route platform now cookie zod simulation body)
    unfolding simulate_route
    simulate_route-Preserves zod simulation body =
        admin_route-Preserves _ (simulate_parsed-Preserves simulation _)

    pub create_reward_route-Preserves :
        (to_upper_case : String → String) (zod : Zod) (id : String) (created_at : ℕ) (body : Json)
        → Preserves P (create_reward_route platform now cookie to_upper_case zod id created_at body)
    unfolding create_reward_route
    create_reward_route-Preserves to_upper_case zod id created_at body =
        admin_route-Preserves _
          (create_reward_parsed-Preserves zod.trim to_upper_case id created_at _)

    pub allocate_route-Preserves :
        (zod : Zod) (texts : Texts) (draws : ℕ → AllocationDraws) (body : Json)
        → Preserves P (allocate_route platform now cookie zod texts draws body)
    unfolding allocate_route
    allocate_route-Preserves zod texts draws body =
        admin_route-Preserves _ (allocate_parsed-Preserves texts draws _)

    pub reconcile_route-Preserves :
        (name_le : String → String → Bool)
        → Preserves P (reconcile_route platform now cookie name_le)
    unfolding reconcile_route
    reconcile_route-Preserves name_le = admin_route-Preserves _ (reconcile_answer-Preserves name_le)

    pub deliveries_route-Preserves : Preserves P (deliveries_route platform now cookie)
    unfolding deliveries_route
    deliveries_route-Preserves = admin_route-Preserves _ deliveries_answer-Preserves

    acting_law : (caller : Option SessionUser) → Preserves P (acting_user caller)
    acting_law = acting_user-Preserves P laws platform

    pub balance_route-Preserves : Preserves P (balance_route platform now cookie)
    unfolding balance_route
    balance_route-Preserves =
        guarded-Preserves P laws platform now cookie _ _
          (λ caller. search (admin_rules, acting_law))

    history_parsed-Preserves :
        (id_lt : String → String → Bool) (codec : Codec) (user : SessionUser)
        (query : Parsed TransactionQuery)
        → Preserves P (history_parsed id_lt codec user query)
    unfolding history_parsed
    history_parsed-Preserves id_lt codec user (issues messages) = search admin_rules
    history_parsed-Preserves id_lt codec user (parsed query) = search admin_rules

    pub history_route-Preserves :
        (id_lt : String → String → Bool) (codec : Codec) (zod : Zod) (fields : Fields)
        → Preserves P (history_route id_lt codec platform zod now cookie fields)
    unfolding history_route
    history_route-Preserves id_lt codec zod fields =
        guarded-Preserves P laws platform now cookie _ _
          (λ caller. search (admin_rules, acting_law, history_parsed-Preserves))

  pub demo_route-Preserves : (name_lt : String → String → Bool) → Preserves P (demo_route name_lt)
  unfolding demo_route
  demo_route-Preserves name_lt = search admin_rules

  pub catalogue_route-Preserves : Preserves P catalogue_route
  unfolding catalogue_route
  catalogue_route-Preserves = search admin_rules
