-- ===== src/Prelude/Texts.antt =====
-- Texts that are not empty.
use Prim.Native.Char.{Char}
use Prim.Native.String.{String}
use mathlib.Core.Path.{◌≡◌}
use mathlib.Core.Logic.{inl, inr}
use mathlib.Core.Bool.{false}
use text.Mathlib.Text.{◌==◌}
use text.Mathlib.TextEquality.{eq_iff}
use mini_rewards_integration.Prelude.Tests.{Bool-cases}

pub cons-present : (c : Char) (s : String) → (String.◌∷◌ c s == "") ≡ false
cons-present c s = elim (Bool-cases (String.◌∷◌ c s == "")) [
  | inl empty ↦ cc ((eq_iff (String.◌∷◌ c s) "").0 empty)
  | inr present ↦ present
]
