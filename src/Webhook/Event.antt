-- ===== src/Webhook/Event.antt =====
-- packages/api/src/modules/webhook/webhook.schema.ts, and the walk of webhook.service.ts over decoded
-- values. What the runtime and the zod library do with a text is an argument.
use mini_rewards_integration.Prelude.{
  ℕ, ◌*◌, String, Bool, false, ◌||◌, Option, none, some, ◌==◌, if◌then◌else◌,
}
use mini_rewards_integration.Database.Json.{
  Json, text, array, object, Items, nil, cons, Fields, end, field,
}

-- What the service calls and does not define.
pub record Platform : Type 0 where
  -- `JSON.parse`, with none for a throw
  pub parse_json : String → Option Json
  -- `createHash('sha256').update(text).digest('hex')`
  pub sha256_hex : String → String
  -- `z.string().datetime({ offset: true })`
  pub is_datetime : String → Bool
  -- `new Date(text).getTime()`, and `toISOString` back
  pub instant : String → ℕ
  pub to_iso : ℕ → String
  -- `text.includes(NUL)`
  pub includes_nul : String → Bool
  -- the text of `parsed.error.issues` for a value that the schema refuses
  pub issues : Json → String

-- The value under a key of a decoded object.
abbrev pub lookup : String → Fields → Option Json
lookup key end = none
lookup key (field name value rest) = if name == key then some value else lookup key rest

pub record ActivityEvent : Type 0 where
  pub event_id : String
  pub user_ref : String
  pub activity_type : String
  pub occurred_at : String
  pub metadata : Option Fields

-- `z.string().min(1)`
abbrev pub required_text : Option Json → Option String
required_text (some (text s)) = if s == "" then none else some s
required_text _ = none

-- `z.string().datetime({ offset: true })`
abbrev pub datetime_text : Platform → Option Json → Option String
datetime_text platform (some (text s)) = if platform.is_datetime s then some s else none
datetime_text platform _ = none

-- `z.record(z.unknown()).optional()`
abbrev pub optional_record : Option Json → Option (Option Fields)
optional_record none = some none
optional_record (some (object fields)) = some (some fields)
optional_record (some _) = none

-- The event, when every member is there as it should be.
abbrev pub event_of :
    Option String
    → Option String
    → Option String
    → Option String
    → Option (Option Fields)
    → Option ActivityEvent
event_of (some event_id) (some user_ref) (some activity_type) (some occurred_at) (some metadata) =
    some (record {
      event_id = event_id;
      user_ref = user_ref;
      activity_type = activity_type;
      occurred_at = occurred_at;
      metadata = metadata;
    })
event_of _ _ _ _ _ = none

-- `activityEventSchema.safeParse(payload)`, with none for a refusal
unfoldable pub parse_event : Platform → Json → Option ActivityEvent
parse_event platform (object fields) =
    event_of (required_text (lookup "event_id" fields)) (required_text (lookup "user_ref" fields))
      (required_text (lookup "activity_type" fields))
      (datetime_text platform (lookup "occurred_at" fields))
      (optional_record (lookup "metadata" fields))
parse_event platform _ = none

abbrev pub optional_field : String → Option Fields → Fields → Fields
optional_field name none rest = rest
optional_field name (some fields) rest = field name (object fields) rest

-- `parsed.data` as a value
abbrev pub event_json : ActivityEvent → Json
event_json event = object (
    field "event_id" (text event.event_id) (
      field "user_ref" (text event.user_ref) (
        field "activity_type" (text event.activity_type) (
          field "occurred_at" (text event.occurred_at)
            (optional_field "metadata" event.metadata end)))))

module _ (platform : Platform) where
  unfoldable mutual
    pub contains_nul : Json → Bool
    contains_nul (text s) = platform.includes_nul s
    contains_nul (array items) = some_item_contains_nul items
    contains_nul (object fields) = some_entry_contains_nul fields
    contains_nul _ = false

    pub some_item_contains_nul : Items → Bool
    some_item_contains_nul nil = false
    some_item_contains_nul (cons value rest) = contains_nul value || some_item_contains_nul rest

    pub some_entry_contains_nul : Fields → Bool
    some_entry_contains_nul end = false
    some_entry_contains_nul (field key nested rest) =
        (platform.includes_nul key || contains_nul nested) || some_entry_contains_nul rest

abbrev pub max_event_age_ms : ℕ
max_event_age_ms = 90 * 24 * 60 * 60 * 1000

abbrev pub max_event_future_ms : ℕ
max_event_future_ms = 60 * 60 * 1000
