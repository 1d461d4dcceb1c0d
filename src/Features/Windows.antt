-- ===== src/Features/Windows.antt =====
-- The velocity counts over nested windows, as the store answers them.
use fluxa.Base.{ℕ, ◌≤◌, String, Bool, true, List, [], ◌∷◌, ◌≡◌, arith, length, keep}
use fluxa.Domain.{Time, Event, ok}
use fluxa.World.{Env, World, EventRow, read}
use fluxa.Store.{is_as_of, count_user_events_as_of, user_amount_stats_as_of}
use fluxa.Features.Defs.{Features, store_features, build}

length-keep_mono {ℓ} :
    {A : Type ℓ} (p q : A → Bool) (xs : List A)
    → ((x : A) → p x ≡ true → q x ≡ true)
    → length (keep p xs) ≤ length (keep q xs)
length-keep_mono p q [] h = omega arith
length-keep_mono p q (x ∷ xs) h = ground (arith, h x, length-keep_mono p q xs h)

is_as_of_mono :
    (user : String) (at : Time) (a b : ℕ) (r : EventRow)
    → a ≤ b
    → is_as_of user at a r ≡ true
    → is_as_of user at b r ≡ true
is_as_of_mono user at a b r h e = ground arith

-- The vector that `Build` returns over the store counts at least as many events in the hour as in
-- the minute, and in the day as in the hour.
build_windows :
    (env : Env) (e : Event) (f : Features) (w w' : World)
    → build env.codec (store_features env) e w ≡ (ok f, w')
    → (f.velocity_count_60s ≤ f.velocity_count_3600s)
      × (f.velocity_count_3600s ≤ f.velocity_count_86400s)
      × (w'.events ≡ w.events)
unfolding build count_user_events_as_of user_amount_stats_as_of read
build_windows env e f w w' h = ground (
  arith,
  length-keep_mono (is_as_of e.user_id e.timestamp 60) (is_as_of e.user_id e.timestamp 3600)
      w.events (λ r. is_as_of_mono e.user_id e.timestamp 60 3600 r (omega arith)),
  length-keep_mono (is_as_of e.user_id e.timestamp 3600) (is_as_of e.user_id e.timestamp 86400)
      w.events (λ r. is_as_of_mono e.user_id e.timestamp 3600 86400 r (omega arith)),
)
