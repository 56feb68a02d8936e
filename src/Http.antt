-- ===== src/Http.antt =====
-- packages/api/src/app.ts and the routes: replies, the error handler, and the checks of a body that the
-- routes ask of zod. Rate limits, logs and content types are left out.
pub mod Guards
pub mod Accounts
pub mod Redemptions
pub mod Users
pub mod Forms
pub mod Admin
pub mod Kept
pub mod Managed
pub mod Sessions
pub mod Retries
pub mod Limits
pub mod Simulated
pub mod Health
use Prim.Native.String.{◌++◌}
use mini_rewards_integration.Prelude.{
  ℕ, String, Bool, Option, none, some, List, [], ◌∷◌, ◌++◌ as append_list, leb, if◌then◌else◌,
}
use mini_rewards_integration.Prelude.Int.{ℤ, pos, negsuc}
use mini_rewards_integration.Database.Json.{Json, null, text, object, Fields, end}
use mini_rewards_integration.Database.Schema.{Db}
use mini_rewards_integration.Database.Exec.{Result, ok, err, Client}
use mini_rewards_integration.Webhook.Event.{lookup}

pub data Reply (B : Type 0) : Type 0 where
  refusal : (code : ℕ) → (error message : String) → Reply B
  -- the refusal that carries two numbers besides
  short_of_points : (code : ℕ) → (error message : String) → (balance : ℤ) → (required : ℕ) → Reply B
  answer : (code : ℕ) → B → Reply B

-- What escapes a handler is answered without a word about it: no error of the services carries a status.
abbrev pub error_handler : {B : Type 0} → Result (Reply B) × Db → Reply B × Db
error_handler (ok reply, db) = (reply, db)
error_handler (err e, db) = (refusal 500 "internal_error" "The request could not be completed.", db)

abbrev pub respond : {B : Type 0} → Client (Reply B) → Db → Reply B × Db
respond handler db = error_handler (handler db)

-- zod's `safeParse`: the value, or the messages of what is wrong with it
pub data Parsed (A : Type 0) : Type 0 where
  parsed : A → Parsed A
  issues : List String → Parsed A

-- What zod and the runtime do with a value.
pub record Zod : Type 0 where
  pub trim : String → String
  pub is_email : String → Bool
  pub is_uuid : String → Bool
  pub is_datetime : String → Bool
  -- `text.length`
  pub units : String → ℕ
  -- `z.coerce.number().int()`, with none for a refusal
  pub coerce_int : Option Json → Option ℤ
  -- the library's own texts, for what stands under a key: of a wrong kind, under or over a bound
  pub message : String → Option Json → String
  pub too_small : String → ℕ → String
  pub too_big : String → ℕ → String

abbrev pub both : {A B : Type 0} → Parsed A → Parsed B → Parsed (A × B)
both (parsed a) (parsed b) = parsed (a, b)
both (parsed a) (issues ns) = issues ns
both (issues ms) (parsed b) = issues ms
both (issues ms) (issues ns) = issues (append_list ms ns)

abbrev pub parsed_map : {A B : Type 0} → (A → B) → Parsed A → Parsed B
parsed_map f (parsed a) = parsed (f a)
parsed_map f (issues ms) = issues ms

abbrev pub checked : {A : Type 0} → Bool → String → A → Parsed A
checked passes message a = if passes then parsed a else issues (message ∷ [])

-- The members of a body; a body that is no object has none, and one issue.
abbrev pub with_fields : {A : Type 0} → Zod → (Fields → Parsed A) → Json → Parsed A
with_fields zod f (object fields) = f fields
with_fields zod f value = issues (zod.message "" (some value) ∷ [])

-- `z.string()` with more checks
abbrev pub text_field : {A : Type 0} → Zod → String → (String → Parsed A) → Fields → Parsed A
text_field zod name f fields = elim (lookup name fields) [
  | some (text s) ↦ f s
  | other ↦ issues (zod.message name other ∷ [])
]

-- `.min(low)` and `.max(high)` with the library's texts
abbrev pub bounded : {A : Type 0} → Zod → String → ℕ → ℕ → ℕ → A → Parsed A
bounded zod name low high n a =
    if leb low n
    then checked (leb n high) (zod.too_big name high) a
    else issues (zod.too_small name low ∷ [])

abbrev pub in_range : Zod → String → Option Json → ℕ → ℕ → Option ℤ → Parsed ℕ
in_range zod name value low high none = issues (zod.message name value ∷ [])
in_range zod name value low high (some (pos n)) = bounded zod name low high n n
in_range zod name value low high (some (negsuc n)) = issues (zod.too_small name low ∷ [])

-- `z.coerce.number().int().min(low).max(high)`
abbrev pub int_value : Zod → String → ℕ → ℕ → Option Json → Parsed ℕ
int_value zod name low high value = in_range zod name value low high (zod.coerce_int value)

abbrev pub joined : List String → String
joined [] = ""
joined (m ∷ []) = m
joined (m ∷ (n ∷ ns)) = m ++ ("; " ++ joined (n ∷ ns))

abbrev pub invalid_request : {B : Type 0} → List String → Reply B
invalid_request messages = refusal 400 "invalid_request" (joined messages)
