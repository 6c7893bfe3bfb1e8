-- ===== src/Watchdog/Run/Safe.antt =====
-- All runs of `run_watchdog` of sanlight_mesh/mesh_watchdog.py.
use sanlight_mesh_mqtt_gatew.Base.{
  ℕ, refl, inl, Bool, true, false, String, Option, none, some, List, [], ◌∷◌, if◌then◌else◌, Result,
  ok, err,
}
use sanlight_mesh_mqtt_gatew.Value.{Fields}
use sanlight_mesh_mqtt_gatew.Stateful.{◌>>=◌, return, raise}
use sanlight_mesh_mqtt_gatew.Stateful.Rules.{
  After, Triple, Triple-bind, Triple-return, Triple-raise,
}
use sanlight_mesh_mqtt_gatew.Watchdog.{WatchdogConfig}
use sanlight_mesh_mqtt_gatew.Watchdog.Run.{
  gateway_service, mesh_service, Fault, World, Environment, Exec, gateway_state,
}
use sanlight_mesh_mqtt_gatew.Watchdog.Run.Probe.{mesh_health_of}
use sanlight_mesh_mqtt_gatew.Watchdog.Run.Guard.{Kept, utc_now-Kept, read_document-Kept}
use sanlight_mesh_mqtt_gatew.Watchdog.Run.Phases.{
  Breaks, Ends-Breaks, Before, Ends, Before-Stable, kept_or,
}
use sanlight_mesh_mqtt_gatew.Watchdog.{ConfigError, load_watchdog_config}
use sanlight_mesh_mqtt_gatew.Watchdog.Incident.{Stop, skipped, raised}
use sanlight_mesh_mqtt_gatew.Watchdog.Run.{watchdog_state, lock_tried}
use sanlight_mesh_mqtt_gatew.Watchdog.Run.Probe.{
  investigate_first, if_mesh_active, if_gateway_active, if_eligible, check_incident, if_locked,
  try_lock, run_enabled, if_loaded, run_watchdog,
}
use sanlight_mesh_mqtt_gatew.Watchdog.Run.Ends.{finally-Ends}
use sanlight_mesh_mqtt_gatew.Watchdog.Run.Guard.{service_active-Kept}

-- The start of a process.
abbrev pub idle : World
idle = record { log = []; stopped_gateway = false }

Before-Ends : (w : World) → Before w → Ends w
Before-Ends w (g, p, s) = (g, inl p)

Before-Breaks : (w : World) → Before w → Breaks w
Before-Breaks w b = Ends-Breaks w (Before-Ends w b)

-- What is certain at the end, when the run returns and when it raises.
abbrev pub Finished : {A : Type 0} → World × Result Fault A → Type 0
Finished p = After (λ a. Ends) (λ e. Breaks) p

module _ (env : Environment) where
  abbrev EndsWell : {A : Type 0} → Exec A → Type 0
  EndsWell m = Triple Before m (λ a. Ends) (λ e. Breaks)

  returned : {A : Type 0} (a : A) → EndsWell (return a)
  returned a = Triple-return (λ e. Breaks) a (λ w b. Before-Ends w b)

  after_kept :
      {A B : Type 0} {m : Exec A} {f : A → Exec B}
      → Kept Before m
      → ((a : A) → EndsWell (f a))
      → EndsWell (m >>= f)
  after_kept h k = Triple-bind (λ e. Breaks) (λ a. Before) (kept_or Before Breaks Before-Breaks h) k

  investigate_first-Ends :
      (settings : WatchdogConfig) (state : Fields) (failed_at : String) (ns : Option (List ℕ))
      → EndsWell (investigate_first env settings state failed_at ns)
  investigate_first-Ends settings state failed_at none =
      Triple-raise (λ e. Breaks) _ (λ w b. Before-Breaks w b)
  investigate_first-Ends settings state failed_at (some []) = returned 0
  investigate_first-Ends settings state failed_at (some (n ∷ ns)) =
      finally-Ends env settings state failed_at _

  if_mesh_active-Ends :
      (settings : WatchdogConfig) (state : Fields) (failed_at : String) (b : Bool)
      → EndsWell (if_mesh_active env settings state failed_at b)
  if_mesh_active-Ends settings state failed_at false = returned 0
  if_mesh_active-Ends settings state failed_at true =
      after_kept (record { run = λ w p. p }) (investigate_first-Ends settings state failed_at)

  if_gateway_active-Ends :
      (settings : WatchdogConfig) (state : Fields) (failed_at : String) (b : Bool)
      → EndsWell (if_gateway_active env settings state failed_at b)
  if_gateway_active-Ends settings state failed_at false = returned 0
  if_gateway_active-Ends settings state failed_at true =
      after_kept (service_active-Kept env Before Before-Stable mesh_service)
        (if_mesh_active-Ends settings state failed_at)

  if_eligible-Ends :
      (settings : WatchdogConfig) (state : Fields) (failed_at : String) (r : Result Stop (Unit {0}))
      → EndsWell (if_eligible env settings state failed_at r)
  if_eligible-Ends settings state failed_at (err (skipped reason)) = returned 0
  if_eligible-Ends settings state failed_at (err (raised e)) =
      Triple-raise (λ e. Breaks) _ (λ w b. Before-Breaks w b)
  if_eligible-Ends settings state failed_at (ok u) =
      after_kept (service_active-Kept env Before Before-Stable gateway_service)
        (if_gateway_active-Ends settings state failed_at)

  check_incident-Ends :
      (settings : WatchdogConfig) (now : ℕ) (health : Option Fields)
      → EndsWell (check_incident env settings now health)
  check_incident-Ends settings now none = returned 0
  check_incident-Ends settings now (some health) =
      after_kept (read_document-Kept env Before Before-Stable watchdog_state)
        (λ state. if_eligible-Ends settings state _ _)

  if_locked-Ends : (settings : WatchdogConfig) (b : Bool) → EndsWell (if_locked env settings b)
  if_locked-Ends settings false = returned 0
  if_locked-Ends settings true = after_kept (utc_now-Kept env Before Before-Stable) (λ now.
      after_kept (read_document-Kept env Before Before-Stable gateway_state)
        (λ document. check_incident-Ends settings now (mesh_health_of document)))

  if_enabled-Ends :
      (settings : WatchdogConfig) (b : Bool)
      → EndsWell (if b then (try_lock env >>= if_locked env settings) else return 0)
  if_enabled-Ends settings false = returned 0
  if_enabled-Ends settings true =
      after_kept (record { run = λ w p. Before-Stable w lock_tried refl p })
        (if_locked-Ends settings)

  run_enabled-Ends : (settings : WatchdogConfig) → EndsWell (run_enabled env settings)
  unfolding run_enabled
  run_enabled-Ends settings = if_enabled-Ends settings settings.enabled

  loaded-Ends : (r : Result ConfigError WatchdogConfig) → Finished (if_loaded env r idle)
  unfolding raise
  loaded-Ends (err e) = (tt, inl refl)
  loaded-Ends (ok settings) = (run_enabled-Ends settings).run idle (tt, refl, refl)

  -- However the services, clocks and files answer: a probe was only sent when the gateway was told to stop
  -- with success, was then seen to be inactive, and then no sender was found. The recovery was only run
  -- directly after the state with its time, not yet verified, was stored, and after a probe between two
  -- readings of the transmit counter that confirm a stall. If a probe was sent and the run returns, the
  -- recovery succeeded, or the last call is a start of the gateway, which ended with any exit code, or a
  -- question for it that was answered that it is active. If it raises, the last call may also be a start
  -- or a question that did not end.
  pub run_watchdog-Ends : (root : Fields) → Finished (run_watchdog env root idle)
  unfolding run_watchdog
  run_watchdog-Ends root = loaded-Ends (load_watchdog_config root)
