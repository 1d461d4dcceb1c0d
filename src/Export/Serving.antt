-- ===== src/Export/Serving.antt =====
-- A line of the training file against the features that the same event was served with.
use fluxa.Base.{String, Option, ◌≡◌, arith}
use fluxa.Domain.{Time, Metadata, PayloadMode, Event, ok}
use fluxa.World.{Env, World, read}
use fluxa.Store.{event_row, count_user_events_as_of, user_amount_stats_as_of}
use fluxa.Features.{Features, store_features, build, row, meta_str}
use fluxa.Export.Defs.{scan_row, label_of}
use fluxa.Export.Order.{features_of, training_line}

build_features :
    (env : Env) (e : Event) (f : Features) (w w' : World)
    → build env.codec (store_features env) e w ≡ (ok f, w')
    → f ≡ features_of env.codec w.events e
unfolding build features_of count_user_events_as_of user_amount_stats_as_of read
build_features env e f w w' h = ground arith

-- Where the metadata is read back with the same texts, the line that is exported for a stored event
-- is the row of the features that `Build` returned for it over the same table, but for the amount,
-- which is the rounded one that the column keeps.
pub training_line-build :
    (env : Env) (e : Event) (f : Features) (w w' : World) (m : Option Metadata)
    (correlation json : String) (mode : PayloadMode) (key : Option String) (now : Time)
    → build env.codec (store_features env) e w ≡ (ok f, w')
    → env.codec.parse_metadata json ≡ ok m
    → ((k : String) → meta_str m k ≡ meta_str e.metadata k)
    → training_line env.codec w.events
        (scan_row env.codec (event_row env e correlation mode key json now))
      ≡ row env.codec (record f { amount = env.codec.decimal f.amount }) (label_of e.metadata)
unfolding scan_row features_of
training_line-build env e f w w' m correlation json mode key now built parsed same = ground (
  arith,
  build_features env e f w w' built,
  same "product_code",
  same "card_network",
  same "email_domain",
  same "is_fraud_ground_truth",
)
