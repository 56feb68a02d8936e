-- ===== src/Http/Guards.antt =====
-- packages/api/src/plugins/auth.ts: who is asking, and who may.
use mini_rewards_integration.Prelude.{ℕ, String, Option, none, some, ◌==◌, if◌then◌else◌}
use mini_rewards_integration.Database.Schema.{UserRole, user, admin}
use mini_rewards_integration.Database.Exec.{unexpected, Client, pure, raise, ◌>>=◌, transaction}
use mini_rewards_integration.Auth.{AuthPlatform, SessionUser, resolve_session}
use mini_rewards_integration.Http.{Reply, refusal}

-- The preHandler of every request. An empty cookie is none.
unfoldable pub resolve_user : AuthPlatform → ℕ → Option String → Client (Option SessionUser)
resolve_user platform now none = pure none
resolve_user platform now (some token) =
    if token == "" then pure none else transaction (resolve_session platform now token)

-- A guard sends a refusal, which ends the request, or nothing.
unfoldable pub require_user : {B : Type 0} → Option SessionUser → Option (Reply B)
require_user none = some (refusal 401 "unauthenticated" "Sign in to continue.")
require_user (some u) = none

abbrev pub require_role : {B : Type 0} → UserRole → Option (Reply B)
require_role admin = none
require_role user = some (refusal 403 "forbidden" "This area is for administrator accounts.")

unfoldable pub require_admin : {B : Type 0} → Option SessionUser → Option (Reply B)
require_admin none = some (refusal 401 "unauthenticated" "Sign in to continue.")
require_admin (some u) = require_role u.role

unfoldable pub acting_user : Option SessionUser → Client SessionUser
acting_user none =
    raise (unexpected "actingUser called on a route that is missing the requireUser guard.")
acting_user (some u) = pure u

abbrev pub unless_sent : {B : Type 0} → Option (Reply B) → Client (Reply B) → Client (Reply B)
unless_sent (some sent) handler = pure sent
unless_sent none handler = handler

-- A route behind the hook and a guard.
unfoldable pub guarded :
    {B : Type 0}
    → AuthPlatform
    → ℕ
    → Option String
    → (Option SessionUser → Option (Reply B))
    → (Option SessionUser → Client (Reply B))
    → Client (Reply B)
guarded platform now cookie guard handler = do
  caller ← resolve_user platform now cookie
  unless_sent (guard caller) (handler caller)
