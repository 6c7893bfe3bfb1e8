-- ===== src/Service/Slot.antt =====
-- The safety interval between writes, `_wait_for_write_slot` of sanlight_mesh/gateway_service.py.
use sanlight_mesh_mqtt_gatew.Base.{
  ℕ, ◌+◌, ◌-◌, ◌≤◌, ◌<◌, ◌≡◌, refl, ◌⊎◌, inl, inr, Bool, true, false, Bool-cases, ◌∷◌, leb, leb→le,
  arith, Result, ok, err,
}
use sanlight_mesh_mqtt_gatew.GatewayProtocol.{GatewayCommand}
use sanlight_mesh_mqtt_gatew.Service.{clock_read, monotonic_read, waited, Fault, World, Environment}
use sanlight_mesh_mqtt_gatew.Service.Run.{◌>>=◌, read_clock, read_monotonic}
use sanlight_mesh_mqtt_gatew.Service.Worker.{
  write_min_interval, wait_remaining, wait_for_write_slot,
}

not_leb : (a b : ℕ) → leb a b ≡ false → b < a
not_leb a b h = ground arith

module _ (env : Environment) (c : GatewayCommand) where
  -- What is left of the interval.
  abbrev pub remaining : World → ℕ
  remaining w = w.last_write_monotonic + write_min_interval - env.monotonic w.log

  -- When the wait would end.
  abbrev pub wait_end : World → ℕ
  wait_end w = env.utc_now (monotonic_read ∷ w.log) + remaining w

  -- A write may go on, or not.
  abbrev pub Slot : World → World × Result Fault Bool → Type 0
  Slot w (v, ok true) =
      (w.last_write_monotonic + write_min_interval ≤ env.monotonic w.log)
      ⊎ ((v.log ≡ waited (remaining w) ∷ clock_read ∷ monotonic_read ∷ w.log)
          × (env.stopped (clock_read ∷ monotonic_read ∷ w.log) (remaining w) ≡ false)
          × (wait_end w < c.expires_at))
  Slot w (v, ok false) =
      (env.monotonic w.log < w.last_write_monotonic + write_min_interval)
      × (((c.expires_at ≤ wait_end w) × (v.log ≡ clock_read ∷ monotonic_read ∷ w.log))
          ⊎ ((env.stopped (clock_read ∷ monotonic_read ∷ w.log) (remaining w) ≡ true)
              × (v.log ≡ waited (remaining w) ∷ clock_read ∷ monotonic_read ∷ w.log)))
  Slot w (v, err e) = false ≡ true

  -- Before a write, at least the interval has passed since the last write on the monotonic clock, or
  -- the rest of it was waited for without a stop and the command does not expire in that time. Otherwise
  -- the command would expire in that time and nothing was waited for, or the service was stopped during
  -- the wait. It never raises.
  pub wait_for_write_slot-Slot : (w : World) → Slot w (wait_for_write_slot env c w)
  unfolding wait_for_write_slot wait_remaining read_clock read_monotonic ◌>>=◌
  wait_for_write_slot-Slot w =
      elim (Bool-cases (leb (w.last_write_monotonic + write_min_interval) (env.monotonic w.log))) [
        | inl h ↦ rw h (inl (leb→le _ _ h))
        | inr h ↦ elim (Bool-cases (leb c.expires_at (wait_end w))) [
          | inl g ↦ rw (h, g) (not_leb _ _ h, inl (leb→le _ _ g, refl))
          | inr g ↦
              elim (Bool-cases (env.stopped (clock_read ∷ monotonic_read ∷ w.log) (remaining w))) [
                | inl s ↦ rw (h, g, s) (not_leb _ _ h, inr (s, refl))
                | inr s ↦ rw (h, g, s) (inr (refl, s, not_leb _ _ g))
              ]
        ]
      ]
