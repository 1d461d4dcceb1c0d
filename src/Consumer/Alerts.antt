-- ===== src/Consumer/Alerts.antt =====
-- What the alert consumer counts.
use fluxa.Base.{
  ℕ, suc, ◌+◌, ◌==◌, String, Bool, true, false, List, [], ◌∷◌, ◌≡◌, inl, inr, arith, All,
  if◌then◌else◌,
}
use fluxa.Domain.{Result, ok, err, AlertMessage, Result-cases}
use fluxa.World.{Env, World, Sample, counter, histogram}
use fluxa.Consumer.Defs.{acked, Delivery, consume_alert, consume}

-- The samples of alerts_consumed_total.
abbrev pub alerts : List Sample → ℕ
alerts [] = 0
alerts (counter name labels ∷ ss) =
    let n = alerts ss in if name == "alerts_consumed_total" then suc n else n
alerts (histogram name labels ∷ ss) = alerts ss

abbrev pub is_ok : Result AlertMessage → Bool
is_ok (ok _) = true
is_ok (err _) = false

module _ (env : Env) where
  -- The deliveries whose body is an alert.
  abbrev pub readable : List Delivery → ℕ
  readable [] = 0
  readable (d ∷ ds) =
      let n = readable ds in if is_ok (env.codec.parse_alert d.body) then suc n else n

  consume_alert_counts :
      (body : String) (w : World)
      → ((consume_alert env body w).0 ≡ acked)
        × (alerts (consume_alert env body w).1.samples
            ≡ alerts w.samples + (if is_ok (env.codec.parse_alert body) then 1 else 0))
  unfolding consume_alert
  consume_alert_counts body w = elim (Result-cases (env.codec.parse_alert body)) [
    | inr (x, broken) ↦ ground arith
    | inl (a, parsed) ↦ ground arith
  ]

  -- The alert consumer acknowledges every delivery and adds one sample to alerts_consumed_total
  -- for each one that is an alert, as long as no other service adds samples of that name.
  consume-alerts :
      (ds : List Delivery) (w : World)
      → All (λ d. (v : World) → alerts (d.before v).samples ≡ alerts v.samples) ds
      → All (λ s. s.1 ≡ acked) (consume (consume_alert env) ds w).0
        × (alerts (consume (consume_alert env) ds w).1.samples ≡ alerts w.samples + readable ds)
  unfolding consume
  consume-alerts [] w fair = (tt, ground arith)
  consume-alerts (d ∷ ds) w (first, fair) =
      let v = d.before w in
      let (settled, counted) = consume_alert_counts d.body v in
      let (rest, total) = consume-alerts ds (consume_alert env d.body v).1 fair in
      ((settled, rest), ground (arith, first w))
