-- ===== src/Http/Forms.antt =====
-- packages/api/src/modules/dev/dev.routes.ts: what its bodies have to be.
use Prim.Native.Char.{Char, code}
use mini_rewards_integration.Prelude.{
  ℕ, String, Bool, true, false, ◌&&◌, ◌||◌, Option, none, some, List, [], ◌∷◌, leb, eqb, suc,
}
use mini_rewards_integration.Database.Json.{Json, null, text, array, Items, nil, cons, Fields}
use mini_rewards_integration.Catalogue.{CreateRewardInput}
use mini_rewards_integration.Allocation.{AllocateRewardInput}
use mini_rewards_integration.Webhook.Event.{lookup}
use mini_rewards_integration.Http.{
  Parsed, parsed, issues, Zod, both, parsed_map, checked, with_fields, text_field, bounded,
  int_value,
}

pub record SimulateInput : Type 0 where
  pub user_ref : String
  pub activity_type : String
  pub occurred_at : Option String
  pub event_id : Option String

abbrev pub filled_text : Zod → String → Fields → Parsed String
filled_text zod name =
    text_field zod name (λ s. checked (leb 1 (zod.units s)) (zod.too_small name 1) s)

abbrev pub optional_text : Zod → String → (String → Parsed String) → Fields → Parsed (Option String)
optional_text zod name f fields = elim (lookup name fields) [
  | none ↦ parsed none
  | some (text s) ↦ parsed_map some (f s)
  | some value ↦ issues (zod.message name (some value) ∷ [])
]

unfoldable pub simulate_schema : Zod → Json → Parsed SimulateInput
simulate_schema zod = with_fields zod (λ fields.
    parsed_map
      (λ c. record {
        user_ref = c.0.0.0;
        activity_type = c.0.0.1;
        occurred_at = c.0.1;
        event_id = c.1;
      })
      (both
        (both (both (filled_text zod "userRef" fields) (filled_text zod "activityType" fields)) (
          optional_text zod "occurredAt"
            (λ s. checked (zod.is_datetime s) (zod.message "occurredAt" (some (text s))) s) fields))
        (optional_text zod "eventId"
          (λ s. checked (leb 1 (zod.units s)) (zod.too_small "eventId" 1) s) fields)))

-- `/^[A-Za-z0-9-]+$/`
abbrev pub between : ℕ → ℕ → ℕ → Bool
between low high n = leb low n && leb n high

abbrev pub is_sku_char : Char → Bool
is_sku_char c =
    between b'A' b'Z' (code c)
    || (between b'a' b'z' (code c) || (between b'0' b'9' (code c) || eqb (code c) b'-'))

abbrev pub all_sku_chars : String → Bool
all_sku_chars String.[] = true
all_sku_chars (String.◌∷◌ c s) = is_sku_char c && all_sku_chars s

abbrev pub is_sku : String → Bool
is_sku String.[] = false
is_sku (String.◌∷◌ c s) = is_sku_char c && all_sku_chars s

abbrev pub sku_value : Zod → String → Parsed String
sku_value zod s =
    parsed_map (λ p. p.0)
      (both (bounded zod "sku" 2 40 (zod.units s) s)
        (checked (is_sku s) "SKU may contain letters, numbers and hyphens only" s))

abbrev pub trimmed_text : Zod → String → ℕ → Fields → Parsed String
trimmed_text zod name high =
    text_field zod name (λ s. bounded zod name 1 high (zod.units (zod.trim s)) (zod.trim s))

abbrev pub stock_value : Zod → Option Json → Parsed (Option ℕ)
stock_value zod none = parsed none
stock_value zod (some null) = parsed none
stock_value zod (some value) = parsed_map some (int_value zod "stock" 0 1000000 (some value))

unfoldable pub create_reward_schema : Zod → Json → Parsed CreateRewardInput
create_reward_schema zod = with_fields zod (λ fields.
    parsed_map
      (λ c. record {
        sku = c.0.0.0.0;
        name = c.0.0.0.1;
        description = c.0.0.1;
        cost_points = c.0.1;
        stock = c.1;
      })
      (both
        (both
          (both
            (both (text_field zod "sku" (λ s. sku_value zod (zod.trim s)) fields)
              (trimmed_text zod "name" 80 fields))
            (trimmed_text zod "description" 200 fields))
          (int_value zod "costPoints" 1 1000000 (lookup "costPoints" fields)))
        (stock_value zod (lookup "stock" fields))))

abbrev pub uuid_items : Zod → Items → Parsed (List String)
uuid_items zod nil = parsed []
uuid_items zod (cons (text s) rest) =
    parsed_map (λ p. p.0 ∷ p.1)
      (both (checked (zod.is_uuid s) (zod.message "userIds" (some (text s))) s)
        (uuid_items zod rest))
uuid_items zod (cons value rest) =
    parsed_map (λ p. p.0 ∷ p.1)
      (both (issues (zod.message "userIds" (some value) ∷ [])) (uuid_items zod rest))

abbrev pub items_length : Items → ℕ
items_length nil = 0
items_length (cons value rest) = suc (items_length rest)

-- The bounds on the number of users, then each of them.
abbrev pub user_ids_value : Zod → Option Json → Parsed (List String)
user_ids_value zod (some (array items)) =
    parsed_map (λ p. p.1)
      (both (bounded zod "userIds" 1 100 (items_length items) tt) (uuid_items zod items))
user_ids_value zod value = issues (zod.message "userIds" value ∷ [])

unfoldable pub allocate_schema : Zod → Json → Parsed AllocateRewardInput
allocate_schema zod = with_fields zod (λ fields.
    parsed_map (λ c. record { reward_id = c.0.0; user_ids = c.0.1; allocation_key = c.1 })
      (both
        (both
          (text_field zod "rewardId"
            (λ s. checked (zod.is_uuid s) (zod.message "rewardId" (some (text s))) s) fields)
          (user_ids_value zod (lookup "userIds" fields)))
        (text_field zod "allocationKey" (λ s. bounded zod "allocationKey" 8 200 (zod.units s) s)
          fields)))
