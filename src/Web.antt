-- ===== src/Web.antt =====
-- packages/web/src/lib/redemption-copy.ts, packages/web/src/lib/format.ts and `buildSeries` of
-- packages/web/src/components/BalanceSparkline.tsx: what the client shows. The grouping of thousands is an
-- argument.
pub mod Series
use Prim.Native.Char.{Char, code}
use Prim.Native.String.{◌++◌}
use mathlib.Core.List.{reverse}
use mini_rewards_integration.Prelude.{
  ℕ, String, Bool, Option, none, some, List, [], ◌∷◌, ◌++◌ as append_list, ◌==◌, eqb, if◌then◌else◌,
}
use mini_rewards_integration.Prelude.Int.{ℤ, pos, ◌+ℤ◌, negate, abs, is_positive, eqb_ℤ}
use mini_rewards_integration.Prelude.Sort.{last?}
use mini_rewards_integration.Database.Schema.{
  TransactionType, earn, redeem, reversal, adjustment, RedemptionStatus, reserved, fulfilled,
  failed,
}
use mini_rewards_integration.Ledger.History.{LedgerEntrySummary}
use mini_rewards_integration.Redemption.{RedemptionOutcome}

-- A refusal of the API, with the two numbers that it may carry.
pub record ApiError : Type 0 where
  pub code : String
  pub message : String
  pub balance : Option ℤ
  pub required : Option ℤ

pub record Copy : Type 0 where
  pub title : String
  pub detail : String

pub data Tone : Type 0 where
  success error info : Tone

pub record Toast : Type 0 where
  pub tone : Tone
  pub copy : Copy

-- One entry on the chart, or the opening balance.
pub record Point : Type 0 where
  pub time : ℕ
  pub balance : ℤ
  pub entry : Option LedgerEntrySummary

abbrev pub shortfall : Option ℤ → Option ℤ → Option ℤ
shortfall (some balance) (some required) = some (required +ℤ negate balance)
shortfall _ _ = none

-- The text behind a prefix, where the text starts with it.
abbrev pub behind_prefix : String → String → Option String
behind_prefix String.[] s = some s
behind_prefix (String.◌∷◌ p ps) String.[] = none
behind_prefix (String.◌∷◌ p ps) (String.◌∷◌ c s) =
    let rest = behind_prefix ps s in if eqb (code p) (code c) then rest else none

abbrev pub own_source : String → String
own_source source =
    if source == "redemption"
    then "Redemption"
    else if source == "reversal"
    then "Refund"
    else if source == "admin"
    then "Manual adjustment"
    else source

abbrev pub source_words : String → Option String → String
source_words source (some partner) = "Partner · " ++ partner
source_words source none = own_source source

unfoldable pub describe_source : LedgerEntrySummary → String
describe_source entry = source_words entry.source (behind_prefix "partner:" entry.source)

unfoldable pub describe_type : TransactionType → String
describe_type earn = "Earned"
describe_type redeem = "Spent"
describe_type reversal = "Refunded"
describe_type adjustment = "Adjusted"

-- Each entry with the balance after it, from the newest back.
abbrev pub walk_back : ℤ → List LedgerEntrySummary → List Point
walk_back running [] = []
walk_back running (e ∷ es) =
    record { time = e.created_at; balance = running; entry = some e }
    ∷ walk_back (running +ℤ negate e.delta) es

-- What `running` is once the walk is over.
abbrev pub balance_before : ℤ → List LedgerEntrySummary → ℤ
balance_before running [] = running
balance_before running (e ∷ es) = balance_before (running +ℤ negate e.delta) es

abbrev pub opening : ℤ → Option LedgerEntrySummary → List Point
opening running none = []
opening running (some oldest) =
    record { time = oldest.created_at; balance = running; entry = none } ∷ []

unfoldable pub build_series : List LedgerEntrySummary → ℤ → List Point
build_series [] current_balance = []
build_series (e ∷ es) current_balance = reverse (
    append_list (walk_back current_balance (e ∷ es))
      (opening (balance_before current_balance (e ∷ es)) (last? (e ∷ es))))

module _ (format_points : ℤ → String) where
  unfoldable pub format_delta : ℤ → String
  format_delta delta = (if is_positive delta then "+" else "−") ++ format_points (pos (abs delta))

  abbrev pub shortfall_detail : Option ℤ → String
  shortfall_detail none = "You do not have enough points for this reward."
  shortfall_detail (some n) =
      "You need "
      ++ (format_points n ++ (" more " ++ ((if eqb_ℤ n (pos 1) then "point" else "points") ++ ".")))

  -- None for an error that is not the API's.
  unfoldable pub describe_redemption_error : Option ApiError → Copy
  describe_redemption_error none = record {
    title = "Could not reach the server";
    detail = "Check your connection and try again. No points have been taken.";
  }
  describe_redemption_error (some e) =
      if e.code == "insufficient_points"
      then record {
        title = "Not enough points yet";
        detail = shortfall_detail (shortfall e.balance e.required);
      }
      else if e.code == "out_of_stock"
      then record {
        title = "That one just sold out";
        detail = "Someone claimed the last one. Your points have not been touched.";
      }
      else if e.code == "reward_inactive"
      then record {
        title = "No longer available";
        detail = "This reward has been withdrawn. Your points have not been touched.";
      }
      else if e.code == "reward_not_found"
      then record {
        title = "Reward not found";
        detail = "Refresh the page — the catalogue may have changed.";
      }
      else if e.code == "unauthenticated"
      then record {
        title = "Pick a user first";
        detail = "Choose someone from the switcher at the top of the page.";
      }
      else record { title = "Redemption failed"; detail = e.message }

  unfoldable pub fulfilled_detail : RedemptionOutcome → String
  fulfilled_detail outcome =
      if outcome.replay
      then "You had already redeemed this — no extra points were taken."
      else format_points (pos outcome.cost_points)
        ++ (" points spent. New balance " ++ (format_points outcome.balance_after ++ "."))

  unfoldable pub describe_status : RedemptionOutcome → RedemptionStatus → Toast
  describe_status outcome fulfilled = record {
    tone = success;
    copy = record { title = outcome.reward_name ++ " redeemed"; detail = fulfilled_detail outcome };
  }
  describe_status outcome failed = record {
    tone = error;
    copy = record {
      title = outcome.reward_name ++ " could not be issued";
      detail =
          "Your "
          ++ (format_points (pos outcome.cost_points)
              ++ (" points have been returned. Balance is "
                  ++ (format_points outcome.balance_after ++ ".")));
    };
  }
  describe_status outcome reserved = record {
    tone = info;
    copy = record {
      title = outcome.reward_name ++ " is being issued";
      detail = "Your points are reserved. This usually completes in a moment.";
    };
  }

  unfoldable pub describe_redemption_outcome : RedemptionOutcome → Toast
  describe_redemption_outcome outcome = describe_status outcome outcome.status
