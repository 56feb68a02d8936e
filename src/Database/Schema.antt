-- ===== src/Database/Schema.antt =====
-- The rows of packages/api/prisma/schema.prisma. An instant is a number of milliseconds from a start
-- before every date that the program reads. Columns that a CHECK of the first migration keeps at zero
-- or above are naturals.
use mini_rewards_integration.Prelude.{ℕ, String, Bool, Option, List}
use mini_rewards_integration.Prelude.Int.{ℤ}
use mini_rewards_integration.Database.Json.{Json}

pub data TransactionType : Type 0 where
  earn redeem reversal adjustment : TransactionType

pub data RedemptionStatus : Type 0 where
  reserved fulfilled failed : RedemptionStatus

pub data DeliveryStatus : Type 0 where
  received processed unmatched rejected failed : DeliveryStatus

pub data UnmatchedReason : Type 0 where
  unknown_user no_rule : UnmatchedReason

pub data UserRole : Type 0 where
  user admin : UserRole

pub record User : Type 0 where
  pub id : String
  pub external_ref : String
  pub display_name : String
  pub email : Option String
  pub password_hash : Option String
  pub role : UserRole
  pub created_at : ℕ

-- The rows of `sessions`; the name `Session` is that of a transaction here.
pub record LoginSession : Type 0 where
  pub id : String
  pub user_id : String
  pub expires_at : ℕ
  pub created_at : ℕ

pub record PointTransaction : Type 0 where
  pub id : String
  pub user_id : String
  pub delta : ℤ
  pub type : TransactionType
  pub source : String
  pub external_event_id : Option String
  pub redemption_id : Option String
  pub rule_id : Option String
  pub reverses_id : Option String
  pub description : String
  pub metadata : Option Json
  pub created_at : ℕ

pub record UserBalance : Type 0 where
  pub user_id : String
  pub balance : ℤ
  pub updated_at : ℕ

pub record EarningRule : Type 0 where
  pub id : String
  pub activity_type : String
  pub points : ℤ
  pub effective_from : ℕ
  pub effective_to : Option ℕ
  pub active : Bool
  pub created_at : ℕ

pub record Reward : Type 0 where
  pub id : String
  pub sku : String
  pub name : String
  pub description : String
  pub cost_points : ℕ
  pub stock : Option ℕ
  pub active : Bool
  pub created_at : ℕ

pub record Redemption : Type 0 where
  pub id : String
  pub user_id : String
  pub reward_id : String
  pub status : RedemptionStatus
  pub cost_points_snapshot : ℕ
  pub reward_name_snapshot : String
  pub idempotency_key : String
  pub fulfillment_ref : Option String
  pub failure_reason : Option String
  pub reserved_at : ℕ
  pub created_at : ℕ
  pub fulfilled_at : Option ℕ

pub record WebhookDelivery : Type 0 where
  pub id : String
  pub partner : String
  pub external_event_id : String
  pub status : DeliveryStatus
  pub unmatched_reason : Option UnmatchedReason
  pub raw_payload : String
  pub user_ref : Option String
  pub activity_type : Option String
  pub error : Option String
  pub attempts : ℕ
  pub received_at : ℕ
  pub processed_at : Option ℕ

-- The committed contents of the database. A table is the list of its rows, the newest first.
pub record Db : Type 0 where
  pub users : List User
  pub sessions : List LoginSession
  pub user_balances : List UserBalance
  pub point_transactions : List PointTransaction
  pub earning_rules : List EarningRule
  pub rewards : List Reward
  pub redemptions : List Redemption
  pub webhook_deliveries : List WebhookDelivery
