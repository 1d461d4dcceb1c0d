-- ===== src/Processor/Grounded.antt =====
-- What stands behind an alert, and which changes of the world leave it there.
use fluxa.Base.{
  String, ◌==◌, true, false, Option, List, [], ◌∷◌, ◌≡◌, ◌⊎◌, inl, inr, arith, Option-cases, All,
}
use fluxa.Domain.{PayloadMode, ok, Event, FraudFlag, alert_message}
use fluxa.World.{Env, World, Published}
use fluxa.Store.{find_event, has_event, insert_event, insert_fraud_flag}
use fluxa.Store.Events.{insert_event_frame, insert_event_keeps}
use fluxa.Store.Flags.{has_flag, IsReferring, insert_fraud_flag-cases, insert_fraud_flag_keeps}

-- A message on another exchange than `alerts`, or the alert of a flag that is stored, for an event
-- that is.
abbrev pub IsBehind : Env → World → Published → Type 0
IsBehind env w m =
    ((m.exchange == "alerts") ≡ false)
    ⊎ ((f : FraudFlag) × (env.codec.print_alert (alert_message f) ≡ ok m.body)
        × (has_event f.event_id w ≡ true)
        × (has_flag f.flag_id w ≡ true))

pub record IsGrounded (env : Env) (w : World) : Type 0 where
  pub flags : IsReferring w
  pub alerts : All (IsBehind env w) w.published

-- No event and no flag is lost.
pub record Keeps (w w' : World) : Type 0 where
  pub events : (id : String) → has_event id w ≡ true → has_event id w' ≡ true
  pub flags : (id : String) → has_flag id w ≡ true → has_flag id w' ≡ true

module _ (env : Env) where
  IsBehind-Keeps :
      {w w' : World} (m : Published) → Keeps w w' → IsBehind env w m → IsBehind env w' m
  IsBehind-Keeps m keeps (inl aside) = inl aside
  IsBehind-Keeps m keeps (inr (f, printed, event, flag)) =
      inr (f, printed, keeps.events f.event_id event, keeps.flags f.flag_id flag)

  pub alerts-Keeps :
      {w w' : World} (ms : List Published)
      → Keeps w w'
      → All (IsBehind env w) ms
      → All (IsBehind env w') ms
  alerts-Keeps [] keeps h = tt
  alerts-Keeps (m ∷ ms) keeps (here, rest) =
      (IsBehind-Keeps m keeps here, alerts-Keeps ms keeps rest)

  pub flags-Keeps :
      {w w' : World} (fs : List FraudFlag)
      → Keeps w w'
      → All (λ f. has_event f.event_id w ≡ true) fs
      → All (λ f. has_event f.event_id w' ≡ true) fs
  flags-Keeps [] keeps h = tt
  flags-Keeps (f ∷ fs) keeps (here, rest) =
      (keeps.events f.event_id here, flags-Keeps fs keeps rest)

  -- Where nothing is added to the flags and the messages.
  pub IsGrounded-Keeps :
      {w w' : World}
      → w'.flags ≡ w.flags
      → w'.published ≡ w.published
      → Keeps w w'
      → IsGrounded env w
      → IsGrounded env w'
  IsGrounded-Keeps {w} {w'} flags published keeps g = record {
    flags = rw flags (flags-Keeps w.flags keeps g.flags);
    alerts = rw published (alerts-Keeps w.published keeps g.alerts);
  }

  pub IsGrounded-same :
      {w w' : World}
      → w'.events ≡ w.events
      → w'.flags ≡ w.flags
      → w'.published ≡ w.published
      → IsGrounded env w
      → IsGrounded env w'
  IsGrounded-same events flags published g =
      IsGrounded-Keeps flags published
        (record { events = λ id h. ground arith; flags = λ id h. ground arith }) g

  -- A message to another exchange needs nothing behind it.
  pub IsGrounded-aside :
      {w w' : World} (m : Published)
      → w'.events ≡ w.events
      → w'.flags ≡ w.flags
      → w'.published ≡ m ∷ w.published
      → (m.exchange == "alerts") ≡ false
      → IsGrounded env w
      → IsGrounded env w'
  IsGrounded-aside {w} {w'} m events flags published aside g =
      let keeps : Keeps w w' = record {
        events = λ id h. ground arith;
        flags = λ id h. ground arith;
      } in
      record {
        flags = rw flags (flags-Keeps w.flags keeps g.flags);
        alerts = rw published (inl aside, alerts-Keeps w.published keeps g.alerts);
      }

  pub insert_fraud_flag-IsGrounded :
      (f : FraudFlag) (w : World) → IsGrounded env w → IsGrounded env (insert_fraud_flag env f w).1
  insert_fraud_flag-IsGrounded f w g =
      let w' = (insert_fraud_flag env f w).1 in
      let (events, published, flags) = insert_fraud_flag-cases env f w in
      let keeps : Keeps w w' = record {
        events = λ id h. ground arith;
        flags = λ id h. insert_fraud_flag_keeps env f id w h;
      } in
      elim flags [
        | inl same ↦ IsGrounded-Keeps same published keeps g
        | inr (there, added) ↦ record {
          flags = rw added (keeps.events f.event_id there, flags-Keeps w.flags keeps g.flags);
          alerts = rw published (alerts-Keeps w.published keeps g.alerts);
        }
      ]

  pub insert_event-IsGrounded :
      (e : Event) (correlation : String) (mode : PayloadMode) (key : Option String) (w : World)
      → IsGrounded env w
      → IsGrounded env (insert_event env e correlation mode key w).1
  insert_event-IsGrounded e correlation mode key w g =
      let (_, flags, _, published) = insert_event_frame env e correlation mode key w in
      IsGrounded-Keeps flags published
        (record {
          events = λ id h. elim (Option-cases (find_event id w)) [
            | inl absent ↦ absurd (ground arith)
            | inr (old, found) ↦
                ground (arith, insert_event_keeps env e correlation mode key id old w found)
          ];
          flags = λ id h. ground arith;
        })
        g
