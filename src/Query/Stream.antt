-- ===== src/Query/Stream.antt =====
-- The stream of fraud events: each is newer than all before it, and what a poll can miss.
use fluxa.Base.{
  ◌≤◌, ◌<◌, true, List, [], ◌∷◌, ◌≡◌, inl, inr, arith, All, All-append, keep, insert_by, sort_by,
  ltb, Bool-cases,
}
use fluxa.Domain.{Time, FraudEvent}
use fluxa.World.{Env, World, done, next, read}
use fluxa.Store.{older, join_events, fraud_since, get_fraud_events_since}
use fluxa.Query.Defs.{later, write_sse_event, send_fresh, poll, poll_loop}

abbrev IsNewer : Time → FraudEvent → Type 0
IsNewer t f = t < f.flagged_at

abbrev IsAtMost : Time → FraudEvent → Type 0
IsAtMost t f = f.flagged_at ≤ t

All-keep-IsNewer :
    (t : Time) (fs : List FraudEvent) → All (IsNewer t) (keep (λ f. ltb t f.flagged_at) fs)
All-keep-IsNewer t [] = tt
All-keep-IsNewer t (f ∷ fs) = ground (arith, All-keep-IsNewer t fs)

All-insert_by {ℓ} :
    (P : FraudEvent → Type ℓ) (f : FraudEvent) (fs : List FraudEvent)
    → P f
    → All P fs
    → All P (insert_by older f fs)
unfolding insert_by
All-insert_by P f [] p h = (p, tt)
All-insert_by P f (g ∷ fs) p h = ground (arith, All-insert_by P f fs p)

All-sort_by {ℓ} :
    (P : FraudEvent → Type ℓ) (fs : List FraudEvent) → All P fs → All P (sort_by older fs)
unfolding sort_by
All-sort_by P [] h = tt
All-sort_by P (f ∷ fs) h = All-insert_by P f (sort_by older fs) h.0 (All-sort_by P fs h.1)

-- Whatever the query returns lies strictly after the time that was asked for.
fraud_since-IsNewer : (t : Time) (w : World) → All (IsNewer t) (fraud_since t w)
fraud_since-IsNewer t w =
    All-sort_by (IsNewer t) (keep (λ f. ltb t f.flagged_at) (join_events w.events w.flags))
      (All-keep-IsNewer t (join_events w.events w.flags))

All-IsNewer_mono :
    (t u : Time) (fs : List FraudEvent) → t ≤ u → All (IsNewer u) fs → All (IsNewer t) fs
All-IsNewer_mono t u [] h a = tt
All-IsNewer_mono t u (f ∷ fs) h a = (omega arith, All-IsNewer_mono t u fs h a.1)

module _ (env : Env) where
  -- What is sent lies after the start, and `lastSeen` moves on to cover all of it.
  send_fresh_bounds :
      (fs : List FraudEvent) (t last : Time) (w : World)
      → All (IsNewer t) fs
      → All (IsNewer t) (send_fresh env fs last w).0.events
        × (last ≤ (send_fresh env fs last w).0.last_seen)
        × All (IsAtMost (send_fresh env fs last w).0.last_seen) (send_fresh env fs last w).0.events
        × ((send_fresh env fs last w).0.is_open ≡ true → (send_fresh env fs last w).0.events ≡ fs)
  unfolding send_fresh
  send_fresh_bounds [] t last w a = ground arith
  send_fresh_bounds (f ∷ fs) t last w a =
      let (written, w1) = write_sse_event env f w in
      let rest = send_fresh_bounds fs t (later last f.flagged_at) w1 a.1 in
      elim (Bool-cases written) [ inl sent ↦ ground arith | inr failed ↦ ground arith ]

  poll_bounds :
      (last : Time) (w : World)
      → All (IsNewer last) (poll env last w).0.events × (last ≤ (poll env last w).0.last_seen)
  unfolding poll get_fraud_events_since read
  poll_bounds last w =
      let sent =
        send_fresh_bounds (fraud_since last w) last last (next w) (fraud_since-IsNewer last w) in
      ground arith

  poll_answers :
      (last : Time) (w : World)
      → env.reply w.tick ≡ done
      → poll env last w ≡ send_fresh env (fraud_since last w) last (next w)
  unfolding poll get_fraud_events_since read
  poll_answers last w answers = rw answers

  -- A poll that reaches the database and the client sends every fraud event that is stored and
  -- newer than the last one seen, and no other; afterwards none of them is newer than `lastSeen`,
  -- so that no later poll sends it again.
  pub poll_complete :
      (last : Time) (w : World)
      → env.reply w.tick ≡ done
      → (poll env last w).0.is_open ≡ true
      → ((poll env last w).0.events ≡ fraud_since last w)
        × All (λ f. last < f.flagged_at) (poll env last w).0.events
        × All (λ f. f.flagged_at ≤ (poll env last w).0.last_seen) (poll env last w).0.events
  poll_complete last w answers open_still =
      let polled = poll_answers last w answers in
      let (newer_all, grows, covered, whole) =
        send_fresh_bounds (fraud_since last w) last last (next w) (fraud_since-IsNewer last w) in
      rw polled (whole (rw polled at open_still), newer_all, covered)

  -- Whatever the other services write between the polls, the loop only ever sends events that are
  -- newer than where it began: a fraud flag that is stored later with that time, or an earlier
  -- one, never reaches the client.
  pub poll_loop_newer :
      (changes : List (World → World)) (last : Time) (w : World)
      → All (λ f. last < f.flagged_at) (poll_loop env changes last w).0
  unfolding poll_loop
  poll_loop_newer [] last w = tt
  poll_loop_newer (change ∷ changes) last w =
      let (sent, w1) = poll env last (change w) in
      let here = poll_bounds last (change w) in
      let rest = poll_loop_newer changes sent.last_seen w1 in
      let more = (poll_loop env changes sent.last_seen w1).0 in
      elim (Bool-cases sent.is_open) [
        | inl still_open ↦ rw still_open (
            All-append (IsNewer last) sent.events more here.0
              (All-IsNewer_mono last sent.last_seen more here.1 rest))
        | inr closed ↦ rw closed here.0
      ]
