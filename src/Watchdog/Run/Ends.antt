-- ===== src/Watchdog/Run/Ends.antt =====
-- How `run_watchdog` of sanlight_mesh/mesh_watchdog.py ends: what came before a recovery, and the
-- gateway after a probe.
use sanlight_mesh_mqtt_gatew.Base.{
  ◌≡◌, refl, ◌⊎◌, inl, inr, Bool, true, false, Bool-cases, String, if◌then◌else◌, Result, ok, err,
}
use sanlight_mesh_mqtt_gatew.Value.{Fields}
use sanlight_mesh_mqtt_gatew.Stateful.{return, finally}
use sanlight_mesh_mqtt_gatew.Stateful.Rules.{
  After, Triple, Triple-bind, Triple-return, Triple-finally,
}
use sanlight_mesh_mqtt_gatew.Watchdog.{WatchdogConfig}
use sanlight_mesh_mqtt_gatew.Watchdog.Run.{
  gateway_service, is_active, stop_gateway, start_gateway, Answer, completed, expired, failed, ran,
  Fault, World, Environment, has_exited_0, log_call, answered, run_command, wait_service_state,
  set_stopped, get_stopped, service_active,
}
use sanlight_mesh_mqtt_gatew.Watchdog.Run.Probe.{
  probe, probe_if_free, wait_if_stopped, investigate, start_unless, restart_if, restart,
}
use sanlight_mesh_mqtt_gatew.Watchdog.Run.Guard.{is_probe, has_recovered, some_call, Guarded}
use sanlight_mesh_mqtt_gatew.Watchdog.Run.Phases.{
  Waiting, Quiet, Alone, Waiting-Body, raises_to, Breaks, Ends-Breaks, weaken_After, is_restarted,
  StopDone, Before, Body, Ends, Before-Stable, Given, Given-given, Before-Body,
}
use sanlight_mesh_mqtt_gatew.Watchdog.Run.Alone.{
  Stopped, wait_inactive-Quiet, wait_sender_exit-Alone,
}
use sanlight_mesh_mqtt_gatew.Watchdog.Run.Measure.{probe-Body}

module _ (env : Environment) where
  if_free-Body :
      (settings : WatchdogConfig) (state : Fields) (failed_at address : String) (free : Bool)
      → Triple
          (Given Waiting free Alone)
          (if free then probe env settings state failed_at address else return 1)
          (λ n. Body)
          (λ e. Body)
  if_free-Body settings state failed_at address true = record {
    run = λ w ((g, q, s), h).
        (probe-Body env settings state failed_at address).run w (g, Given-given h, s);
  }
  if_free-Body settings state failed_at address false =
      Triple-return (λ e. Body) 1 (λ w (d, h). Waiting-Body w d)

  probe_if_free-Body :
      (settings : WatchdogConfig) (state : Fields) (failed_at address : String)
      → Triple
          (λ w. Guarded w.log × Quiet w)
          (probe_if_free env settings state failed_at address)
          (λ n. Body)
          (λ e. Body)
  unfolding probe_if_free set_stopped
  probe_if_free-Body settings state failed_at address =
      Triple-bind (λ e. Body) (λ u. Waiting) (record { run = λ w (g, s). (g, s, refl) })
        (λ u.
          Triple-bind (λ e. Body) (λ free. Given Waiting free Alone)
            (raises_to Waiting Body Waiting-Body (wait_sender_exit-Alone env))
            (λ free. if_free-Body settings state failed_at address free))

  stop_command-Given :
      Triple Before
        (run_command env stop_gateway 30)
        (λ r. Given Before (has_exited_0 r.0) StopDone)
        (λ e. Body)
  unfolding run_command
  stop_command-Given = record { run = λ w p. go w (env.process w.log stop_gateway 30) p }
    where
      go :
          (w : World) (a : Answer)
          → Before w
          → After
              (λ r. Given Before (has_exited_0 r.0) StopDone)
              (λ e. Body)
              (log_call (ran stop_gateway 30 a) w, answered a)
      go w (completed code output) b = elim (Bool-cases (has_exited_0 code)) [
        | inl e ↦
            (Before-Stable w (ran stop_gateway 30 (completed code output)) refl b, inr (rw e refl))
        | inr e ↦ (Before-Stable w (ran stop_gateway 30 (completed code output)) refl b, inl e)
      ]
      go w expired b =
          Before-Body (log_call (ran stop_gateway 30 expired) w)
            (Before-Stable w (ran stop_gateway 30 expired) refl b)
      go w failed b =
          Before-Body (log_call (ran stop_gateway 30 failed) w)
            (Before-Stable w (ran stop_gateway 30 failed) refl b)

  wait_if_stopped-Given :
      (b : Bool)
      → Triple
          (Given Before b StopDone)
          (wait_if_stopped env b)
          (λ inactive. Given Before inactive Quiet)
          (λ e. Body)
  wait_if_stopped-Given false = Triple-return (λ e. Body) false (λ w (b, h). (b, inl refl))
  wait_if_stopped-Given true = record {
    run = λ w (b, h).
        widen (wait_service_state env gateway_service false 10 w)
          ((wait_inactive-Quiet env 10).run w (b, Given-given h));
  }
    where
      widen :
          (p : World × Result Fault Bool)
          → After (λ i. Given Stopped i Quiet) (λ e. Stopped) p
          → After (λ i. Given Before i Quiet) (λ e. Body) p
      widen (w, ok i) ((b, d), h) = (b, h)
      widen (w, err e) (b, d) = Before-Body w b

  if_inactive-Body :
      (settings : WatchdogConfig) (state : Fields) (failed_at address : String) (b : Bool)
      → Triple
          (Given Before b Quiet)
          (if b then probe_if_free env settings state failed_at address else return 1)
          (λ n. Body)
          (λ e. Body)
  if_inactive-Body settings state failed_at address true = record {
    run = λ w (b, h).
        (probe_if_free-Body settings state failed_at address).run w (b.0, Given-given h);
  }
  if_inactive-Body settings state failed_at address false =
      Triple-return (λ e. Body) 1 (λ w (b, h). Before-Body w b)

  investigate-Body :
      (settings : WatchdogConfig) (state : Fields) (failed_at address : String)
      → Triple Before (investigate env settings state failed_at address) (λ n. Body) (λ e. Body)
  unfolding investigate
  investigate-Body settings state failed_at address =
      Triple-bind (λ e. Body) _ stop_command-Given
        (λ r.
          Triple-bind (λ e. Body) _ (wait_if_stopped-Given (has_exited_0 r.0))
            (λ b. if_inactive-Body settings state failed_at address b))

  -- After the question whether the gateway is active.
  abbrev Asked : Bool → World → Type 0
  Asked active w = Guarded w.log × ((active ≡ false) ⊎ (is_restarted w.log ≡ true))

  service_active-Asked :
      Triple (λ w. Guarded w.log) (service_active env gateway_service) Asked (λ e. Breaks)
  unfolding service_active run_command
  service_active-Asked =
      Triple-bind (λ e. Breaks) (λ r. Asked (has_exited_0 r.0))
        (record { run = λ w g. go w (env.process w.log (is_active gateway_service) 10) g })
        (λ r. Triple-return (λ e. Breaks) _ (λ w p. p))
    where
      go :
          (w : World) (a : Answer)
          → Guarded w.log
          → After
              (λ r. Asked (has_exited_0 r.0))
              (λ e. Breaks)
              (log_call (ran (is_active gateway_service) 10 a) w, answered a)
      go w (completed code output) g = elim (Bool-cases (has_exited_0 code)) [
        | inl e ↦ ((inl refl, inl refl, g), inr (rw e refl))
        | inr e ↦ ((inl refl, inl refl, g), inl e)
      ]
      go w expired g = ((inl refl, inl refl, g), inr (inr (inr refl)))
      go w failed g = ((inl refl, inl refl, g), inr (inr (inr refl)))

  start-Ends :
      Triple (λ w. Guarded w.log) (run_command env start_gateway 30) (λ r. Ends) (λ e. Breaks)
  unfolding run_command
  start-Ends = record { run = λ w g. go w (env.process w.log start_gateway 30) g }
    where
      go :
          (w : World) (a : Answer)
          → Guarded w.log
          → After (λ r. Ends) (λ e. Breaks) (log_call (ran start_gateway 30 a) w, answered a)
      go w (completed code output) g = ((inl refl, inl refl, g), inr (inr refl))
      go w expired g = ((inl refl, inl refl, g), inr (inr (inr refl)))
      go w failed g = ((inl refl, inl refl, g), inr (inr (inr refl)))

  start_unless-Ends :
      (active : Bool) → Triple (Asked active) (start_unless env active) (λ u. Ends) (λ e. Breaks)
  start_unless-Ends true =
      Triple-return (λ e. Breaks) tt (λ w (g, h). (g, inr (inr (Given-given h))))
  start_unless-Ends false =
      Triple-bind (λ e. Breaks) (λ r. Ends) (record { run = λ w (g, h). start-Ends.run w g })
        (λ r. Triple-return (λ e. Breaks) tt (λ w p. p))

  restart_if-Ends :
      (b : Bool)
      → Triple (λ w. Body w × (w.stopped_gateway ≡ b)) (restart_if env b) (λ u. Ends) (λ e. Breaks)
  restart_if-Ends false = Triple-return (λ e. Breaks) tt (λ w ((g, h), s). (g, unstopped w h s))
    where
      unstopped :
          (w : World)
          → (some_call is_probe w.log ≡ false)
            ⊎ (some_call has_recovered w.log ≡ true)
            ⊎ (w.stopped_gateway ≡ true)
          → w.stopped_gateway ≡ false
          → (some_call is_probe w.log ≡ false)
            ⊎ (some_call has_recovered w.log ≡ true)
            ⊎ (is_restarted w.log ≡ true)
      unstopped w (inl h) s = inl h
      unstopped w (inr (inl h)) s = inr (inl h)
      unstopped w (inr (inr h)) s = cc
  restart_if-Ends true =
      Triple-bind (λ e. Breaks) Asked
        (record { run = λ w ((g, h), s). service_active-Asked.run w g }) start_unless-Ends

  pub restart-Ends : Triple Body (restart env) (λ u. Ends) (λ e. Breaks)
  unfolding restart get_stopped
  restart-Ends =
      Triple-bind (λ e. Breaks) (λ b w. Body w × (w.stopped_gateway ≡ b))
        (record { run = λ w p. (p, refl) }) restart_if-Ends

  restart-Breaks : Triple Body (restart env) (λ u. Breaks) (λ e. Breaks)
  restart-Breaks = record {
    run = λ w p.
        weaken_After (λ u. Ends) (λ u. Breaks) (λ e. Breaks) (λ e. Breaks) (restart env w)
          (λ a v q. Ends-Breaks v q) (λ e v q. q) (restart-Ends.run w p);
  }

  pub finally-Ends :
      (settings : WatchdogConfig) (state : Fields) (failed_at address : String)
      → Triple Before
          (finally (investigate env settings state failed_at address) (restart env))
          (λ n. Ends)
          (λ e. Breaks)
  finally-Ends settings state failed_at address =
      Triple-finally (λ n. Body) (λ e. Body) (investigate-Body settings state failed_at address)
        (λ n. restart-Ends) (λ e. restart-Breaks)
