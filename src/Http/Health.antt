-- ===== src/Http/Health.antt =====
-- packages/api/src/modules/health/health.service.ts and health.routes.ts: the probes. What the database
-- answers to the query is an argument.
use mini_rewards_integration.Prelude.{String, Bool, Option, none, some, if◌then◌else◌}
use mini_rewards_integration.Http.{Reply, answer}

pub data Status : Type 0 where
  healthy degraded : Status

pub data DatabaseState : Type 0 where
  up down : DatabaseState

pub record HealthReport : Type 0 where
  pub status : Status
  pub database : DatabaseState
  pub error : Option String

-- With the message of what the query threw, if it threw.
unfoldable pub check_database : Option String → HealthReport
check_database none = record { status = healthy; database = up; error = none }
check_database (some message) = record { status = degraded; database = down; error = some message }

-- Only outside production does a report say what went wrong.
unfoldable pub ready_answer : Bool → HealthReport → DatabaseState → Reply HealthReport
ready_answer production report up = answer 200 report
ready_answer production report down =
    answer 503 (if production then record report { error = none } else report)

unfoldable pub ready_route : Bool → Option String → Reply HealthReport
ready_route production thrown =
    let report = check_database thrown in ready_answer production report report.database

-- Nothing outside the process is asked.
unfoldable pub live_route : Reply Status
live_route = answer 200 healthy
