-- ===== src/Ports.antt =====
-- internal/ports and the calls of internal/adapters/minio and internal/adapters/rabbitmq that the
-- services make: the object store's `Put` and `Get`, and the broker's `Publish`.
use fluxa.Base.{String, Option, none, some, lookup, insert, ◌∷◌}
use fluxa.Domain.{GoError, plain, wrapped, Result, ok, err}
use fluxa.World.{Env, World, M, pure, ◌>>=◌, on_error, on_result, write, read}

abbrev pub find_object : String → World → Option String
find_object key w = lookup key w.objects

abbrev pub put_object : String → String → World → World
put_object key body w = record w { objects = insert key body w.objects }

abbrev pub add_message : String → String → String → World → World
add_message exchange key body w = record w {
  published = record { exchange = exchange; routing_key = key; body = body } ∷ w.published;
}

module _ (env : Env) where
  -- `Client.Put` of the MinIO adapter.
  unfoldable pub storage_put : String → String → M (Option GoError)
  storage_put key body = do
    failure ← write env (put_object key body)
    on_error failure (λ e. pure (some (wrapped "minio: put" e))) (pure none)

  -- `Client.Get`: a missing key shows when the object is read.
  unfoldable pub storage_get : String → M (Result String)
  storage_get key = do
    found ← read env (find_object key)
    on_result found (λ e. pure (err (wrapped "minio: get" e)))
        (λ object. elim object [
          | none ↦ pure (err (wrapped "minio: read" (plain "The specified key does not exist.")))
          | some body ↦ pure (ok body)
        ])

  -- `Client.Publish` of the RabbitMQ adapter.
  unfoldable pub publish : String → String → String → M (Option GoError)
  publish exchange key body = do
    failure ← write env (add_message exchange key body)
    on_error failure (λ e. pure (some (wrapped "rabbitmq: publish" e))) (pure none)
