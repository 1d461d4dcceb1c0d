-- ===== src/World/Defs.antt =====
-- The environment, the state and the monad of a service's calls.
use fluxa.Base.{ℤ, ℕ, ◌+◌, String, Bool, Option, none, some, List, ◌∷◌}
use fluxa.Domain.{
  Time, Float64, Metadata, GoError, Result, ok, err, Event, PayloadMode, QueueMessage,
  IdempotencyKeyRecord, FraudFlag, FraudEvent, AlertMessage,
}

-- How an external call ends: it takes effect, it fails with no effect, or it takes effect and
-- the caller sees an error all the same (an acknowledgement that was lost).
pub data Reply : Type 0 where
  done : Reply
  refused : GoError → Reply
  unconfirmed : GoError → Reply

-- The pure functions of libraries. `parse_*` and `print_*` stand for `encoding/json`.
pub record Codec : Type 0 where
  pub sha256_hex : String → String
  pub print_event : Event → Result String
  pub parse_event : String → Result Event
  -- The first JSON value of a request's body.
  pub decode_event : String → Result Event
  pub print_message : QueueMessage → Result String
  pub parse_message : String → Result QueueMessage
  pub print_alert : AlertMessage → Result String
  pub parse_alert : String → Result AlertMessage
  pub print_fraud_event : FraudEvent → Result String
  pub print_metadata : Metadata → Result String
  pub parse_metadata : String → Result (Option Metadata)
  -- What a DECIMAL(18, 2) column keeps of a float.
  pub decimal : Float64 → Float64
  -- `SUM` over such a column, read back as a float.
  pub sum_decimals : List Float64 → Float64
  -- `%.2f` and `%.4f`, `%d` of a count, `%q`.
  pub fixed : ℕ → Float64 → String
  pub itoa : ℤ → String
  pub quote : String → String
  -- `strconv.Atoi`; `none` is its error.
  pub atoi : String → Option ℤ
  -- `strconv.FormatFloat(v, 'f', -1, 64)`: of a float, and of the seconds that a time makes, -1 for
  -- `none`; `strings.ToLower`.
  pub format_float : Float64 → String
  pub format_seconds : Option Time → String
  pub to_lower : String → String
  -- `Format("2006-01-02")`.
  pub format_date : Time → String
  -- `Format("2006-01-02T15:04:05Z07:00")`, of a time in whole seconds.
  pub format_time : Time → String

-- Call number n of the run sees the n-th value of each.
pub record Env : Type 0 where
  pub codec : Codec
  pub now : ℕ → Time
  -- The database's own clock, for `NOW()`.
  pub db_now : ℕ → Time
  pub new_uuid : ℕ → String
  pub reply : ℕ → Reply
  -- What other processors have committed to `idempotency_keys` when statement n begins.
  pub others : ℕ → List IdempotencyKeyRecord → List IdempotencyKeyRecord
  -- Whether a statement that failed leaves its transaction unusable, as PostgreSQL has it.
  pub aborts : Bool

-- A row of `events`.
pub record EventRow : Type 0 where
  pub event_id : String
  pub correlation_id : String
  pub user_id : String
  pub amount : Float64
  pub currency : String
  pub merchant : String
  pub ts : Time
  pub metadata_json : String
  pub payload_mode : PayloadMode
  pub s3_key : Option String
  pub created_at : Time

-- A message that the broker took over.
pub record Published : Type 0 where
  pub exchange : String
  pub routing_key : String
  pub body : String

-- One call of `ports.Metrics`; the value of a histogram sample is a duration and is left out.
pub data Sample : Type 0 where
  counter : String → List String → Sample
  histogram : String → List String → Sample

pub record World : Type 0 where
  pub events : List EventRow
  pub keys : List IdempotencyKeyRecord
  pub flags : List FraudFlag
  pub objects : List (String × String)
  pub published : List Published
  pub samples : List Sample
  pub tick : ℕ

abbrev pub M {ℓ} : Type ℓ → Type ℓ
M A = World → A × World

abbrev pub pure {ℓ} : {A : Type ℓ} → A → M A
pure a w = (a, w)

infixl 5 ◌>>=◌ ◌>>◌
abbrev pub ◌>>=◌ {ℓ κ} : {A : Type ℓ} {B : Type κ} → M A → (A → M B) → M B
◌>>=◌ m f w = let (a, w') = m w in f a w'

abbrev pub ◌>>◌ {ℓ} : {B : Type ℓ} → M (Unit {0}) → M B → M B
m >> k = m >>= λ _. k

-- `if err != nil { … }`, with the code that follows.
abbrev pub on_error {ℓ} : {B : Type ℓ} → Option GoError → (GoError → B) → B → B
on_error none handle rest = rest
on_error (some e) handle rest = handle e

abbrev pub on_result {ℓ κ} : {A : Type ℓ} {B : Type κ} → Result A → (GoError → B) → (A → B) → B
on_result (ok a) handle rest = rest a
on_result (err e) handle rest = handle e

-- The next call has the next number.
abbrev pub next : World → World
next w = record w { tick = w.tick + 1 }

abbrev pub event_key : EventRow → String
event_key r = r.event_id

abbrev pub key_key : IdempotencyKeyRecord → String
key_key r = r.event_id

abbrev pub flag_key : FraudFlag → String
flag_key f = f.flag_id

-- `Metrics.IncCounter` and `Metrics.ObserveHistogram`.
abbrev pub inc_counter : String → List String → M (Unit {0})
inc_counter name labels w = (tt, record w { samples = counter name labels ∷ w.samples })

abbrev pub observe_histogram : String → List String → M (Unit {0})
observe_histogram name labels w = (tt, record w { samples = histogram name labels ∷ w.samples })

abbrev pub settle : Reply → (World → World) → World → Option GoError × World
settle done f w = (none, next (f w))
settle (refused e) f w = (some e, next w)
settle (unconfirmed e) f w = (some e, next (f w))

abbrev pub answer {ℓ} : {A : Type ℓ} → Reply → (World → A) → World → Result A × World
answer done f w = (ok (f w), next w)
answer (refused e) f w = (err e, next w)
answer (unconfirmed e) f w = (err e, next w)

module _ (env : Env) where
  -- `time.Now()` and `uuid.New().String()`.
  abbrev pub time_now : M Time
  time_now w = (env.now w.tick, next w)

  abbrev pub fresh_uuid : M String
  fresh_uuid w = (env.new_uuid w.tick, next w)

  -- A call that changes the state, and one that only reads it.
  unfoldable pub write : (World → World) → M (Option GoError)
  write f w = settle (env.reply w.tick) f w

  unfoldable pub read {ℓ} : {A : Type ℓ} → (World → A) → M (Result A)
  read f w = answer (env.reply w.tick) f w
