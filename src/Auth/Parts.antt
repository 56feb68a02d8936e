-- ===== src/Auth/Parts.antt =====
-- The parts of a stored password (packages/api/src/modules/auth/auth.service.ts).
use Prim.Native.String.{◌++◌}
use text.Mathlib.TextLemmas.{nil-append, cons-append}
use mini_rewards_integration.Prelude.{String, Bool, false, ◌||◌, ◌≡◌, ◌∙◌, refl, ap, [], ◌∷◌, arith}
use mini_rewards_integration.Auth.Passwords.{is_dollar, split_parts}

unfoldable pub has_dollar : String → Bool
has_dollar String.[] = false
has_dollar (String.◌∷◌ c s) = is_dollar c || has_dollar s

pub split_parts_whole : (s : String) → has_dollar s ≡ false → split_parts s ≡ s ∷ []
unfolding has_dollar split_parts
split_parts_whole String.[] h = refl
split_parts_whole (String.◌∷◌ c s) h = ground (arith, split_parts_whole s)

dollar-append : (t : String) → "$" ++ t ≡ String.◌∷◌ "$" t
dollar-append t = cons-append "$" "" t ∙ ap (String.◌∷◌ "$") (nil-append t)

pub split_parts-append :
    (s t : String) → has_dollar s ≡ false → split_parts (s ++ ("$" ++ t)) ≡ s ∷ split_parts t
unfolding has_dollar split_parts
split_parts-append String.[] t h = rw (nil-append ("$" ++ t), dollar-append t) refl
split_parts-append (String.◌∷◌ c s) t h =
    rw (cons-append c s ("$" ++ t)) (ground (arith, split_parts-append s t))

pub scheme_plain : has_dollar "scrypt" ≡ false
unfolding has_dollar
scheme_plain = refl
