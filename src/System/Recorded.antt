-- ===== src/System/Recorded.antt =====
-- The services keep the promise of the ledger: every handler that writes the events table, and the
-- steps of the system.
use fluxa.Base.{
  ℕ, ◌+◌, sym, ◌∙◌, Bool, String, ◌==◌, Option, none, ◌≡◌, refl, inl, inr, arith, eq_iff, ap,
  find_row, insert_row, Bool-cases, Option-cases,
}
use fluxa.Domain.{Event, Result-cases, validate, PayloadMode, inline, QueueMessage}
use fluxa.World.{Env, World, EventRow, Published, event_key, next}
use fluxa.Store.{find_event, event_row, insert_event, print_map}
use fluxa.Store.Events.{insert_event-cases}
use fluxa.Processor.{Processor, process_message, stored_key}
use fluxa.Processor.Outcome.{insert_of}
use fluxa.Processor.Stored.{Stores, nothing, insertion, process_message-Stores}
use fluxa.Ingest.{handle_ingest}
use fluxa.Query.{handle_get_event}
use fluxa.Consumer.{consume_alert, consume_event}
use fluxa.FraudEval.{
  Server, EvaluateRequest, ContextError, proto_to_event, evaluate_event, evaluate_transaction,
}
use fluxa.System.Ledger.{ledger, IsEntry, Records, Run, start, and_then}
use fluxa.System.Defs.{
  State, Step, ingest, settle, requeue, evaluate, look, alert, pass, Reach, here, later,
}
use fluxa.System.Frames.{
  handle_ingest_tables, handle_get_event_tables, consume_alert_tables, evaluate_stored_tables,
}

module _ (env : Env) where
  insert_row-Records :
      (r : EventRow) (w w1 : World)
      → IsEntry env r
      → w1.events ≡ insert_row event_key r w.events
      → Records env (ledger w) (ledger w1)
  unfolding insert_row find_row
  insert_row-Records r w w1 entry added = elim (Option-cases (find_event r.event_id w)) [
    | inl absent ↦ inr (r, entry, absent, λ id. ground (arith, added, absent, eq_iff r.event_id id))
    | inr (old, found) ↦ inl (λ id. ground (arith, added, found))
  ]

  Records-same : (w w1 : World) → w1.events ≡ w.events → Records env (ledger w) (ledger w1)
  Records-same w w1 same = inl (λ id. ap (find_row event_key id) same)

  -- An INSERT of an event whose fields passed `Validate`, under whatever id.
  insert_event-Records :
      (checked e : Event) (correlation : String) (mode : PayloadMode) (key : Option String) (at : ℕ)
      (w : World)
      → validate (env.now at) checked ≡ none
      → w.tick ≡ at + 1
      → e ≡ record checked { event_id = e.event_id }
      → Records env (ledger w) (ledger (insert_event env e correlation mode key w).1)
  insert_event-Records checked e correlation mode key at w valid next same =
      elim (insert_event-cases env e correlation mode key w) [
        | inl kept ↦ Records-same w (insert_event env e correlation mode key w).1 kept
        | inr (json, now, read, printed, fits, added) ↦
            insert_row-Records (event_row env e correlation mode key json now) w
              (insert_event env e correlation mode key w).1
              (record {
                event = checked;
                at = at;
                valid = valid;
                created = read ∙ ap env.now next;
                fits = fits;
                user = ap (λ x. x.user_id) same;
                amount = ap (λ x. env.codec.decimal x.amount) same;
                currency = ap (λ x. x.currency) same;
                merchant = ap (λ x. x.merchant) same;
                time = ap (λ x. x.timestamp) same;
                metadata = ap (λ x. print_map env x.metadata) (sym same) ∙ printed;
              })
              added
      ]

  -- Steps that leave the events table alone, before and after.
  Records-around :
      (w w1 w2 w3 : World)
      → w1.events ≡ w.events
      → w3.events ≡ w2.events
      → Records env (ledger w1) (ledger w2)
      → Records env (ledger w) (ledger w3)
  Records-around w w1 w2 w3 before after (inl same) = inl (λ id. ground (arith, same id))
  Records-around w w1 w2 w3 before after (inr (r, entry, absent, holds)) =
      inr (r, entry, ground arith, λ id. ground (arith, holds id))

  process_message-Records :
      (p : Processor) (msg : QueueMessage) (w : World)
      → Records env (ledger w) (ledger (process_message env p msg w).1)
  process_message-Records p msg w = go (process_message-Stores env p msg w)
    where
      go :
          Stores env msg w (process_message env p msg w).1
          → Records env (ledger w) (ledger (process_message env p msg w).1)
      go (nothing same) = Records-same w (process_message env p msg w).1 same
      go (insertion bytes now e w1 source checked last before after) =
          Records-around w w1 (insert_of env msg e w1).1 (process_message env p msg w).1 before
            after
            (insert_event-Records checked.parsed e msg.correlation_id msg.payload_mode
              (stored_key msg.payload_mode msg.s3_key) now w1 checked.valid last
              (ground (arith, checked.same)))

  consume_event-Records :
      (p : Processor) (body : String) (w : World)
      → Records env (ledger w) (ledger (consume_event env p body w).1)
  unfolding consume_event
  consume_event-Records p body w = elim (Result-cases (env.codec.parse_message body)) [
    | inr (x, broken) ↦ Records-same w (consume_event env p body w).1 (ground arith)
    | inl (msg, parses) ↦
        let w1 = (process_message env p msg w).1 in
        Records-around w w w1 (consume_event env p body w).1 refl (ground arith)
          (process_message-Records p msg w)
  ]

  evaluate_event-Records :
      (s : Server) (e : Event) (context : Option ContextError) (w : World)
      → Records env (ledger w) (ledger (evaluate_event env s e context w).1)
  unfolding evaluate_event
  evaluate_event-Records s e context w =
      let w3 = (evaluate_event env s e context w).1 in
      let (failure, w1) = insert_event env e e.event_id inline none (next w) in
      elim (Option-cases (validate (env.now w.tick) e)) [
        | inr (x, bad) ↦ Records-same w w3 (ground arith)
        | inl valid ↦ elim (Option-cases context) [
          | inr (c, over) ↦ Records-same w w3 (ground arith)
          | inl runs ↦
              Records-around w (next w) w1 w3 refl
                (ground (arith, evaluate_stored_tables env s e w1))
                (insert_event-Records e e e.event_id inline none w.tick (next w) valid refl refl)
        ]
      ]

  evaluate_transaction-Records :
      (s : Server) (r : EvaluateRequest) (context : Option ContextError) (w : World)
      → Records env (ledger w) (ledger (evaluate_transaction env s r context w).1)
  unfolding evaluate_transaction
  evaluate_transaction-Records s r context w =
      let w2 = (evaluate_transaction env s r context w).1 in
      elim (Bool-cases (r.event_id == "")) [
        | inl empty ↦ Records-same w w2 (ground arith)
        | inr named ↦ elim (Option-cases r.transaction_time) [
          | inl untimed ↦ Records-same w w2 (ground arith)
          | inr (time, timed) ↦
              let e = proto_to_event r time in
              Records-around w (next w) (evaluate_event env s e context (next w)).1 w2 refl
                (ground arith) (evaluate_event-Records s e context (next w))
        ]
      ]

  module _ (p : Processor) (s : Server) (routed : Published → Bool) where
    Step-Records :
        {t u : State} → Step env p s routed t u → Records env (ledger t.world) (ledger u.world)
    Step-Records {t} (ingest r new grown) =
        Records-same t.world (handle_ingest env r t.world).1
          (ground (arith, handle_ingest_tables env r t.world))
    Step-Records {t} (settle body front back waits acks) = consume_event-Records p body t.world
    Step-Records {t} (requeue body front back waits nacks) = consume_event-Records p body t.world
    Step-Records {t} (evaluate r context) = evaluate_transaction-Records s r context t.world
    Step-Records {t} (look method path) =
        Records-same t.world (handle_get_event env method path t.world).1
          (ground (arith, handle_get_event_tables env method path t.world))
    Step-Records {t} (alert body) =
        Records-same t.world (consume_alert env body t.world).1
          (ground (arith, consume_alert_tables env body t.world))
    Step-Records {t} (pass n) = inl (λ id. refl)

    -- Whatever the services do and in whatever order, the events table is a ledger in which each
    -- id is written at most once: each state that they reach shows, for each id, what a run of
    -- the abstract ledger shows, in which a step records nothing or one row under an id that had
    -- none; the row fits its columns and holds the fields of an event that `Validate` let pass at the
    -- reading of the clock in the call before the one that its `created_at` shows.
    pub Reach-Run :
        {t u : State} → Reach env p s routed t u → Run env (ledger t.world) (ledger u.world)
    Reach-Run here = start
    Reach-Run (later r st) = and_then (Reach-Run r) (Step-Records st)
