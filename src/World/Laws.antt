-- ===== src/World/Laws.antt =====
-- What a read gives, whatever its reply.
use fluxa.Base.{◌≡◌, refl, ◌⊎◌, inl, inr}
use fluxa.Domain.{GoError, ok, err}
use fluxa.World.Defs.{Env, World, Reply, done, refused, unconfirmed, next, answer, read}

module _ (env : Env) where
  -- A read gives the value, or an error.
  pub read-cases {ℓ} :
      {A : Type ℓ} (f : World → A) (w : World)
      → (read env f w ≡ (ok (f w), next w)) ⊎ ((e : GoError) × (read env f w ≡ (err e, next w)))
  unfolding read
  read-cases {A} f w = go (env.reply w.tick)
    where
      go :
          (r : Reply)
          → (answer r f w ≡ (ok (f w), next w)) ⊎ ((e : GoError) × (answer r f w ≡ (err e, next w)))
      go done = inl refl
      go (refused e) = inr (e, refl)
      go (unconfirmed e) = inr (e, refl)
