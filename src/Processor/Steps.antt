-- ===== src/Processor/Steps.antt =====
-- What each step of the processor leaves alone, and what it has checked when it goes on.
use fluxa.Base.{
  String, ◌==◌, Bool, Option, none, some, List, [], ◌∷◌, ◌≡◌, refl, ◌⊎◌, inl, inr, arith, eq_iff,
  Option-cases, Bool-cases,
}
use fluxa.Domain.{
  Float64, Time, Result-cases, ok, Event, validate, PayloadMode, inline, s3, other, QueueMessage,
  FraudFlag,
}
use fluxa.World.{Env, World, next, read, write}
use fluxa.Idempotency.{mark_success, mark_failed}
use fluxa.Store.{insert_fraud_flag}
use fluxa.Engine.Frame.{evaluate_with_scorer_frame}
use fluxa.Ports.{find_object, storage_get, publish}
use fluxa.Processor.Defs.{
  Processor, observe_process, fetch_payload, check_payload, raise_one, raise_flags, evaluate_fraud,
  finish, fail_permanent,
}

-- The event and the key tables are as they were.
abbrev pub IsSameTables : World → World → Type 0
IsSameTables w w' = (w'.events ≡ w.events) × (w'.keys ≡ w.keys)

module _ (env : Env) where
  pub fetch_payload_frame :
      (mode : PayloadMode) (payload key : Option String) (w : World)
      → IsSameTables w (fetch_payload env mode payload key w).1
        × ((fetch_payload env mode payload key w).1.flags ≡ w.flags)
        × ((fetch_payload env mode payload key w).1.published ≡ w.published)
  unfolding fetch_payload storage_get read
  fetch_payload_frame inline none key w = ground arith
  fetch_payload_frame inline (some p) key w = ground arith
  fetch_payload_frame s3 p none w = ground arith
  fetch_payload_frame s3 p (some k) w = ground arith
  fetch_payload_frame (other s) p key w = ground arith

  insert_fraud_flag_frame :
      (f : FraudFlag) (w : World) → IsSameTables w (insert_fraud_flag env f w).1
  unfolding insert_fraud_flag write
  insert_fraud_flag_frame f w = ground arith

  raise_one_frame :
      (pubs : Bool) (score : Float64) (f : FraudFlag) (w : World)
      → IsSameTables w (raise_one env pubs score f w).1
  unfolding raise_one publish write
  raise_one_frame pubs score f w =
      ground (arith, insert_fraud_flag_frame (record f { ml_score = score }) w)

  raise_flags_frame :
      (pubs : Bool) (score : Float64) (flags : List FraudFlag) (w : World)
      → IsSameTables w (raise_flags env pubs score flags w).1
  unfolding raise_flags
  raise_flags_frame pubs score [] w = ground arith
  raise_flags_frame pubs score (f ∷ fs) w =
      let w1 = (raise_one env pubs score f w).1 in
      ground (arith, raise_one_frame pubs score f w, raise_flags_frame pubs score fs w1)

  pub evaluate_fraud_frame :
      (p : Processor) (e : Event) (w : World) → IsSameTables w (evaluate_fraud env p e w).1
  unfolding evaluate_fraud
  evaluate_fraud_frame p e w = elim (Option-cases p.fraud) [
    | inl absent ↦ ground arith
    | inr (engine, present) ↦ grind (arith, evaluate_with_scorer_frame, raise_flags_frame)
  ]

  -- What the payload has passed when the processor goes on to store the event.
  pub record IsChecked (msg : QueueMessage) (bytes : String) (now : Time) (e : Event) : Type 0 where
    pub parsed : Event
    pub hash : env.codec.sha256_hex bytes ≡ msg.payload_sha256
    pub parses : env.codec.parse_event bytes ≡ ok parsed
    pub valid : validate now parsed ≡ none
    pub same : e ≡ record parsed { event_id = msg.event_id }

  pub check_payload-IsChecked :
      (msg : QueueMessage) (bytes : String) (w w' : World) (e : Event)
      → check_payload env msg bytes w ≡ (ok e, w')
      → IsChecked msg bytes (env.now w.tick) e × (w' ≡ next w)
  unfolding check_payload
  check_payload-IsChecked msg bytes w w' e h =
      elim (Bool-cases (env.codec.sha256_hex bytes == msg.payload_sha256)) [
        | inr wrong ↦ absurd (ground arith)
        | inl right ↦ elim (Result-cases (env.codec.parse_event bytes)) [
          | inr (x, broken) ↦ absurd (ground arith)
          | inl (parsed, parses) ↦ elim (Option-cases (validate (env.now w.tick) parsed)) [
            | inr (x, bad) ↦ absurd (ground arith)
            | inl valid ↦ (
              record {
                parsed = parsed;
                hash = (eq_iff _ _).0 right;
                parses = parses;
                valid = valid;
                same = ground arith;
              },
              ground arith,
            )
          ]
        ]
      ]

  pub check_payload_frame :
      (msg : QueueMessage) (bytes : String) (w : World) → (check_payload env msg bytes w).1 ≡ next w
  unfolding check_payload
  check_payload_frame msg bytes w = ground arith

  pub finish_events :
      (p : Processor) (msg : QueueMessage) (e : Event) (w : World)
      → ((finish env p msg e w).1.events ≡ w.events) × ((finish env p msg e w).0 ≡ none)
  unfolding finish mark_success write
  finish_events p msg e w = ground (arith, evaluate_fraud_frame p e (observe_process w).1)

  pub fail_permanent_frame :
      (id reason : String) (w : World)
      → ((fail_permanent env id reason w).0 ≡ none)
        × ((fail_permanent env id reason w).1.events ≡ w.events)
  unfolding fail_permanent mark_failed write
  fail_permanent_frame id reason w = ground arith

  -- Where the payload came from.
  abbrev pub IsPayloadOf : QueueMessage → World → String → Type 0
  IsPayloadOf msg w bytes =
      ((msg.payload_mode ≡ inline) × (msg.payload_inline ≡ some bytes))
      ⊎ ((key : String) × (msg.payload_mode ≡ s3)
          × (msg.s3_key ≡ some key)
          × (find_object key w ≡ some bytes))

  fetch_payload_source :
      (mode : PayloadMode) (payload key : Option String) (bytes : String) (w : World)
      → (fetch_payload env mode payload key w).0 ≡ ok bytes
      → ((mode ≡ inline) × (payload ≡ some bytes))
        ⊎ ((k : String) × (mode ≡ s3) × (key ≡ some k) × (find_object k w ≡ some bytes))
  unfolding fetch_payload storage_get read
  fetch_payload_source inline none key bytes w h = cc
  fetch_payload_source inline (some p) key bytes w h = inl (refl, ground arith)
  fetch_payload_source s3 p none bytes w h = cc
  fetch_payload_source s3 p (some k) bytes w h = inr (k, refl, refl, ground arith)
  fetch_payload_source (other s) p key bytes w h = cc

  pub fetch_payload-IsPayloadOf :
      (msg : QueueMessage) (bytes : String) (w : World)
      → (fetch_payload env msg.payload_mode msg.payload_inline msg.s3_key w).0 ≡ ok bytes
      → IsPayloadOf msg w bytes
  fetch_payload-IsPayloadOf msg bytes w h =
      fetch_payload_source msg.payload_mode msg.payload_inline msg.s3_key bytes w h
