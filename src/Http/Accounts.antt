-- ===== src/Http/Accounts.antt =====
-- packages/api/src/modules/auth/auth.routes.ts: registration, login, logout, and who is signed in.
use Prim.Native.Nat.{◌/◌}
use mini_rewards_integration.Prelude.{
  Bool, true, ℕ, String, Option, none, some, List, [], ◌∷◌, ◌==◌, leb, if◌then◌else◌,
}
use mini_rewards_integration.Database.Json.{Json, Fields}
use mini_rewards_integration.Database.Schema.{Db}
use mini_rewards_integration.Database.Exec.{
  email_already_registered, Result, ok, err, Action, Client, pure, ◌>>=◌, ◌>>◌, transaction,
}
use mini_rewards_integration.Auth.{
  AuthPlatform, session_ttl_ms, SessionUser, RegisterInput, RegisterDraws, register, create_session,
  authenticate, destroy_session,
}
use mini_rewards_integration.Http.{
  Reply, refusal, answer, Parsed, parsed, issues, Zod, both, parsed_map, checked, with_fields,
  text_field, invalid_request,
}
use mini_rewards_integration.Http.Guards.{require_user, acting_user, guarded}

pub record Credentials : Type 0 where
  pub email : String
  pub password : String

abbrev pub email_field : Zod → Fields → Parsed String
email_field zod fields =
    text_field zod "email"
      (λ s. checked (zod.is_email (zod.trim s)) "A valid email address is required" (zod.trim s))
      fields

abbrev pub password_field : Zod → Fields → Parsed String
password_field zod fields =
    text_field zod "password"
      (λ s. checked (leb 8 (zod.units s)) "Password must be at least 8 characters" s) fields

abbrev pub display_name_field : Zod → Fields → Parsed String
display_name_field zod fields =
    text_field zod "displayName"
      (λ s.
        if leb 1 (zod.units s)
        then checked (leb (zod.units s) 80) (zod.too_big "displayName" 80) s
        else issues ("A display name is required" ∷ []))
      fields

unfoldable pub credentials_schema : Zod → Json → Parsed Credentials
credentials_schema zod = with_fields zod (λ fields.
    parsed_map (λ c. record { email = c.0; password = c.1 })
      (both (email_field zod fields) (password_field zod fields)))

unfoldable pub register_schema : Zod → Json → Parsed RegisterInput
register_schema zod = with_fields zod (λ fields.
    parsed_map (λ c. record { email = c.0.0; password = c.0.1; display_name = c.1 })
      (both (both (email_field zod fields) (password_field zod fields))
        (display_name_field zod fields)))

pub record CookieOptions : Type 0 where
  pub http_only : Bool
  pub same_site : String
  pub secure : Bool
  pub path : String

unfoldable pub cookie_options : AuthPlatform → CookieOptions
cookie_options platform = record {
  http_only = true;
  same_site = "lax";
  secure = platform.production;
  path = "/";
}

-- What the reply does to the session cookie.
pub data Cookie : Type 0 where
  untouched : Cookie
  set : (token : String) → (max_age : ℕ) → CookieOptions → Cookie
  cleared : CookieOptions → Cookie

-- `setSessionCookie` and `clearSessionCookie`
abbrev pub session_cookie : AuthPlatform → String → Cookie
session_cookie platform token = set token (session_ttl_ms / 1000) (cookie_options platform)

abbrev pub cleared_cookie : AuthPlatform → Cookie
cleared_cookie platform = cleared (cookie_options platform)

pub record Answer : Type 0 where
  pub user : SessionUser
  pub cookie : Cookie

-- What a request for a session draws: the token, and the clock.
pub record SessionDraws : Type 0 where
  pub token : String
  pub now : ℕ

unfoldable pub register_and_sign_in :
    AuthPlatform → RegisterDraws → SessionDraws → RegisterInput → Action Answer
register_and_sign_in platform draws session input = do
  created ← register platform draws input
  issued ← create_session platform session.token session.now created.id
  pure (record { user = created; cookie = session_cookie platform issued.token })

-- A taken address is the one error that the route answers itself.
unfoldable pub registered_or_taken : Result Answer × Db → Result (Reply Answer) × Db
registered_or_taken (ok done, db) = (ok (answer 201 done), db)
registered_or_taken (err email_already_registered, db) =
    (ok (refusal 409 "email_taken" "That email address is already registered."), db)
registered_or_taken (err e, db) = (err e, db)

unfoldable pub register_parsed :
    AuthPlatform → RegisterDraws → SessionDraws → Parsed RegisterInput → Client (Reply Answer)
register_parsed platform draws session (issues messages) = pure (invalid_request messages)
register_parsed platform draws session (parsed input) =
    λ db. registered_or_taken (transaction (register_and_sign_in platform draws session input) db)

unfoldable pub register_route :
    AuthPlatform → Zod → RegisterDraws → SessionDraws → Json → Client (Reply Answer)
register_route platform zod draws session body =
    register_parsed platform draws session (register_schema zod body)

abbrev pub invalid_credentials : Reply Answer
invalid_credentials = refusal 401 "invalid_credentials" "Email or password is incorrect."

unfoldable pub sign_in : AuthPlatform → SessionDraws → Option SessionUser → Action (Option Answer)
sign_in platform session none = pure none
sign_in platform session (some u) = do
  issued ← create_session platform session.token session.now u.id
  pure (some (record { user = u; cookie = session_cookie platform issued.token }))

unfoldable pub authenticate_and_sign_in :
    AuthPlatform → List ℕ → SessionDraws → Credentials → Action (Option Answer)
authenticate_and_sign_in platform salt session body = do
  authenticated ← authenticate platform salt body.email body.password
  sign_in platform session authenticated

unfoldable pub signed_in : Option Answer → Reply Answer
signed_in none = invalid_credentials
signed_in (some done) = answer 200 done

unfoldable pub login_parsed :
    AuthPlatform → List ℕ → SessionDraws → Parsed Credentials → Client (Reply Answer)
login_parsed platform salt session (issues messages) = pure invalid_credentials
login_parsed platform salt session (parsed body) = do
  found ← transaction (authenticate_and_sign_in platform salt session body)
  pure (signed_in found)

unfoldable pub login_route :
    AuthPlatform → Zod → List ℕ → SessionDraws → Json → Client (Reply Answer)
login_route platform zod salt session body =
    login_parsed platform salt session (credentials_schema zod body)

-- `if (token)`: an empty cookie is none.
unfoldable pub end_session : AuthPlatform → Option String → Client Unit
end_session platform none = pure tt
end_session platform (some token) =
    if token == "" then pure tt else transaction (destroy_session platform token)

unfoldable pub logout_route : AuthPlatform → Option String → Client (Reply Cookie)
logout_route platform cookie = do
  end_session platform cookie
  pure (answer 204 (cleared_cookie platform))

unfoldable pub me_route : AuthPlatform → ℕ → Option String → Client (Reply SessionUser)
me_route platform now cookie =
    guarded platform now cookie require_user
      (λ caller. do u ← acting_user caller; pure (answer 200 u))
