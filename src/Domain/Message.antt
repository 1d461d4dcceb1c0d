-- ===== src/Domain/Message.antt =====
-- internal/domain/message.go: the queue's envelope, the persisted event, the idempotency key.
use fluxa.Base.{ℕ, String, Option}
use fluxa.Domain.Values.{Time, Float64, Metadata}

-- A string type with two constants; a message may hold any other text.
pub data PayloadMode : Type 0 where
  inline s3 : PayloadMode
  other : String → PayloadMode

pub record QueueMessage : Type 0 where
  pub event_id : String
  pub correlation_id : String
  pub payload_mode : PayloadMode
  pub payload_inline : Option String
  pub payload_sha256 : String
  pub s3_key : Option String
  pub received_at : Time

pub record EventRecord : Type 0 where
  pub event_id : String
  pub correlation_id : String
  pub user_id : String
  pub amount : Float64
  pub currency : String
  pub merchant : String
  pub timestamp : Time
  pub metadata_json : String
  pub metadata : Option Metadata
  pub payload_mode : PayloadMode
  pub s3_key : Option String
  pub created_at : Time

-- The column's CHECK constraint allows these three texts alone.
pub data IdempotencyStatus : Type 0 where
  processing success failed : IdempotencyStatus

pub record IdempotencyKeyRecord : Type 0 where
  pub event_id : String
  pub status : IdempotencyStatus
  pub first_seen_at : Time
  pub last_seen_at : Time
  pub attempts : ℕ
  pub error_reason : Option String
