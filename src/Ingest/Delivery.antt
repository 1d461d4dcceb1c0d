-- ===== src/Ingest/Delivery.antt =====
-- From the ingest service to the processor: what was accepted passes the processor's checks.
use fluxa.Base.{◌≤◌, String, none, ◌≡◌, refl, ap, ◌∙◌, arith, eq_iff}
use fluxa.Domain.{Time, Result, ok, Event, metadata_len, validate, QueueMessage}
use fluxa.Domain.Validation.{validate-IsValidEvent, IsValidEvent-validate}
use fluxa.World.{Env, World, done, read}
use fluxa.Ports.{storage_get}
use fluxa.Processor.{fetch_payload, check_payload}
use fluxa.Ingest.Envelope.{IsCarried, within, beyond, IsEnqueued, IsCarried-same}

pub validate_later :
    (now later : Time) (e : Event) → now ≤ later → validate now e ≡ none → validate later e ≡ none
validate_later now later e h valid =
    let v = validate-IsValidEvent now e valid in
    IsValidEvent-validate later e (record {
      has_user = v.has_user;
      positive = v.positive;
      has_currency = v.has_currency;
      has_merchant = v.has_merchant;
      has_time = v.has_time;
      not_future = omega (arith, v.not_future);
      few_keys = v.few_keys;
    })

-- What `Validate` reads of an event is the same in both.
pub record IsAlike (sent parsed : Event) : Type 0 where
  pub user : parsed.user_id ≡ sent.user_id
  pub amount : parsed.amount ≡ sent.amount
  pub currency : parsed.currency ≡ sent.currency
  pub merchant : parsed.merchant ≡ sent.merchant
  pub time : parsed.timestamp ≡ sent.timestamp
  pub keys : metadata_len parsed.metadata ≡ metadata_len sent.metadata

IsAlike-validate :
    (now : Time) (sent parsed : Event)
    → IsAlike sent parsed
    → validate now sent ≡ none
    → validate now parsed ≡ none
unfolding validate
IsAlike-validate now sent parsed a valid =
    ground (arith, a.user, a.amount, a.currency, a.merchant, a.time, a.keys)

abbrev pub fetched : Env → QueueMessage → World → Result String × World
fetched env msg w = fetch_payload env msg.payload_mode msg.payload_inline msg.s3_key w

module _ (env : Env) where
  fetched-carried :
      (e : Event) (correlation bytes : String) (msg : QueueMessage) (w : World)
      → IsCarried env e correlation bytes msg w
      → env.reply w.tick ≡ done
      → ((fetched env msg w).0 ≡ ok bytes)
        × (msg.event_id ≡ e.event_id)
        × (msg.payload_sha256 ≡ env.codec.sha256_hex bytes)
  unfolding fetch_payload storage_get read
  fetched-carried e correlation bytes msg w (within small is) answers = rw is (refl, refl, refl)
  fetched-carried e correlation bytes msg w (beyond key large is found) answers =
      rw is (ground arith, refl, refl)

  check_payload_passes :
      (msg : QueueMessage) (e : Event) (bytes : String) (w : World)
      → msg.payload_sha256 ≡ env.codec.sha256_hex bytes
      → env.codec.parse_event bytes ≡ ok e
      → validate (env.now w.tick) e ≡ none
      → (check_payload env msg bytes w).0 ≡ ok (record e { event_id = msg.event_id })
  unfolding check_payload
  check_payload_passes msg e bytes w hash parses valid =
      ground (arith, eq_iff (env.codec.sha256_hex bytes) msg.payload_sha256)

  -- A message that the ingest service accepted is not refused by the processor. While the object
  -- store keeps the payload and answers, the payload arrives as it was sent and its hash is right. If
  -- its JSON parses to an event with the user, amount, currency, merchant, time and number of metadata
  -- keys of the one that was printed, whatever else it has lost, then at any later time that event is
  -- found valid again, and goes on under the id that was accepted.
  pub enqueued_passes :
      {id c : String} (w : World) (q : IsEnqueued env id c w) (w' : World) (parsed : Event)
      → w'.objects ≡ w.objects
      → env.reply w'.tick ≡ done
      → env.codec.parse_event q.bytes ≡ ok parsed
      → IsAlike q.event parsed
      → q.now ≤ env.now (fetched env q.msg w').1.tick
      → ((fetched env q.msg w').0 ≡ ok q.bytes)
        × ((check_payload env q.msg q.bytes (fetched env q.msg w').1).0
            ≡ ok (record parsed { event_id = id }))
  enqueued_passes {id} w q w' parsed same answers parses alike later =
      let (arrives, is, hash) =
        fetched-carried q.event _ q.bytes q.msg w' (IsCarried-same env same q.carried) answers in
      let valid =
        IsAlike-validate _ q.event parsed alike (validate_later q.now _ q.event later q.valid) in
      let passes =
        check_payload_passes q.msg parsed q.bytes (fetched env q.msg w').1 hash parses valid in
      (arrives, passes ∙ ap (λ x. ok (record parsed { event_id = x })) (is ∙ q.named))
