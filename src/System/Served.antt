-- ===== src/System/Served.antt =====
-- What readers of the query service see while the other services work.
use fluxa.Store.{print_map}
use fluxa.Base.{ℕ, ◌+◌, String, Bool, none, ◌≡◌, ap, sym, ◌∙◌}
use fluxa.Domain.{Event, ok, validate}
use fluxa.World.{Env, Published, done}
use fluxa.Processor.{Processor}
use fluxa.FraudEval.{Server}
use fluxa.Query.{EventAnswer, whole_seconds, found, event_id_of, handle_get_event}
use fluxa.Query.Reads.{handle_get_event_found, handle_get_event_finds}
use fluxa.System.Defs.{State, Reach}
use fluxa.System.Ledger.{Run_keeps}
use fluxa.System.Recorded.{Reach-Run}

-- The fields of an answer are those of an event that `Validate` let pass at the reading of the clock in
-- the call before the one that `created_at` shows.
pub record IsOfEvent (env : Env) (rec : EventAnswer) : Type 0 where
  pub event : Event
  pub at : ℕ
  pub valid : validate (env.now at) event ≡ none
  pub created : rec.created_at ≡ env.codec.format_time (whole_seconds (env.now (at + 1)))
  pub user : rec.user_id ≡ event.user_id
  pub amount : rec.amount ≡ env.codec.decimal event.amount
  pub currency : rec.currency ≡ event.currency
  pub merchant : rec.merchant ≡ event.merchant
  pub time : rec.timestamp ≡ env.codec.format_time (whole_seconds event.timestamp)
  pub json : String
  pub printed : print_map env event.metadata ≡ ok json
  pub restored : env.codec.parse_metadata json ≡ ok rec.metadata

module _ (env : Env) (p : Processor) (s : Server) (routed : Published → Bool) where
  -- An event that a reader once got is there for good: whatever the services do afterwards, a GET
  -- of the same path that the database answers gets the same answer.
  pub Reach-served :
      {t u : State} (path : String) (rec : EventAnswer)
      → Reach env p s routed t u
      → (handle_get_event env "GET" path t.world).0 ≡ found rec
      → env.reply u.world.tick ≡ done
      → (handle_get_event env "GET" path u.world).0 ≡ found rec
  Reach-served {t} {u} path rec r answered answers =
      let (named, row, m, there, parses, is) =
        handle_get_event_found env path rec t.world answered in
      let kept = Run_keeps env (event_id_of path) row (Reach-Run env p s routed r) there in
      handle_get_event_finds env path row m u.world named answers kept parses ∙ ap found (sym is)
