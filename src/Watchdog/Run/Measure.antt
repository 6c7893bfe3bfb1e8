-- ===== src/Watchdog/Run/Measure.antt =====
-- The probe in `run_watchdog` of sanlight_mesh/mesh_watchdog.py.
use sanlight_mesh_mqtt_gatew.Base.{
  ℕ, ◌≡◌, refl, sym, subst, inl, inr, Bool, true, false, Bool-cases, String, Option, none, some,
  List, ◌∷◌, codes, if◌then◌else◌,
}
use sanlight_mesh_mqtt_gatew.Value.{Fields}
use sanlight_mesh_mqtt_gatew.Stateful.{return}
use sanlight_mesh_mqtt_gatew.Stateful.Rules.{After, Triple, Triple-bind, Triple-return}
use sanlight_mesh_mqtt_gatew.Watchdog.{WatchdogConfig, ProbeAssessment, assess_probe, occurs}
use sanlight_mesh_mqtt_gatew.Watchdog.Run.{
  get_live, Answer, completed, expired, failed, Call, ran, uart_read, World, Environment, log_call,
  read_uart_tx,
}
use sanlight_mesh_mqtt_gatew.Watchdog.Run.Probe.{
  recover, conclude, run_probe, assess, probe, probe_text,
}
use sanlight_mesh_mqtt_gatew.Watchdog.Run.Guard.{output_of, Stalled, Stable, utc_now-Kept}
use sanlight_mesh_mqtt_gatew.Watchdog.Run.Phases.{
  During, Body, During-Stable, Given, Given-given, Given-Stable, IsStalled, IsStalled-Stable,
  During-Body, kept_or, of_times-Kept, write_document-Kept,
}
use sanlight_mesh_mqtt_gatew.Watchdog.Run.Recovery.{recover-Body}

module _ (env : Environment) where
  if_confirmed-Body :
      (settings : WatchdogConfig) (state : Fields) (history : List ℕ) (b : Bool)
      → Triple
          (Given During b IsStalled)
          (if b then recover env settings state history else return 0)
          (λ a. Body)
          (λ e. Body)
  if_confirmed-Body settings state history true = record {
    run = λ w p. (recover-Body env settings state history).run w (p.0, Given-given p.1);
  }
  if_confirmed-Body settings state history false =
      Triple-return (λ e. Body) 0 (λ w (d, h). During-Body w d)

  conclude-Body :
      (settings : WatchdogConfig) (state : Fields) (failed_at address : String)
      (a : ProbeAssessment)
      → Triple
          (Given During a.confirmed_stall IsStalled)
          (conclude env settings state failed_at address a)
          (λ n. Body)
          (λ e. Body)
  unfolding conclude
  conclude-Body settings state failed_at address a =
      let Φ = Given During a.confirmed_stall IsStalled in
      let stable : Stable Φ =
        Given-Stable During a.confirmed_stall IsStalled During-Stable IsStalled-Stable in
      let ends : (w : World) → Φ w → Body w = λ w (d, h). During-Body w d in
      Triple-bind (λ e. Body) (λ t. Φ) (kept_or Φ Body ends (utc_now-Kept env Φ stable))
        (λ t.
          Triple-bind (λ e. Body) (λ h. Φ) (kept_or Φ Body ends (of_times-Kept Φ _))
            (λ history.
              Triple-bind (λ e. Body) (λ u. Φ)
                (kept_or Φ Body ends (write_document-Kept env Φ stable _))
                (λ u. if_confirmed-Body settings _ history a.confirmed_stall)))

  -- The counter was read last.
  abbrev Counted : Option ℕ → World → Type 0
  Counted before w = During w × ((l : List Call) × (w.log ≡ uart_read before ∷ l))

  read_uart-Counted : Triple During (read_uart_tx env) Counted (λ e. Body)
  unfolding read_uart_tx
  read_uart-Counted = record {
    run = λ w d. (During-Stable w (uart_read (env.uart_tx w.log)) refl d, (w.log, refl));
  }

  -- Then a probe has run.
  abbrev Tried : Option ℕ → String → World → Type 0
  Tried before output w =
      During w
      × ((l : List Call) × (address : String) × (t : ℕ) × (a : Answer) × (w.log
            ≡ ran (get_live address) t a ∷ uart_read before ∷ l)
          × (output_of a ≡ output))

  run_probe-Tried :
      (address : String) (t : ℕ) (before : Option ℕ)
      → Triple (Counted before) (run_probe env address t) (Tried before) (λ e. Body)
  unfolding run_probe
  run_probe-Tried address t before = record {
    run = λ w p. go w (env.process w.log (get_live address) t) p;
  }
    where
      during :
          (w : World) (a : Answer) → During w → During (log_call (ran (get_live address) t a) w)
      during w a (g, p, s) = ((inl refl, inr p, g), p, s)

      go :
          (w : World) (a : Answer)
          → Counted before w
          → After (Tried before) (λ e. Body) (log_call (ran (get_live address) t a) w, probe_text a)
      go w (completed code output) (d, (l, e)) = (
        during w (completed code output) d,
        (l, address, t, completed code output, rw e refl, refl),
      )
      go w expired (d, (l, e)) = (during w expired d, (l, address, t, expired, rw e refl, refl))
      go w failed (d, (l, e)) =
          During-Body (log_call (ran (get_live address) t failed) w) (during w failed d)

  read_again :
      (before : Option ℕ) (output : String)
      → Triple
          (Tried before output)
          (read_uart_tx env)
          (λ after.
            Given During (assess_probe (codes output) before after).confirmed_stall IsStalled)
          (λ e. Body)
  unfolding read_uart_tx
  read_again before output = record {
    run = λ w (d, (l, address, t, a, e, same)).
        let after = env.uart_tx w.log in
        let confirmed = (assess_probe (codes output) before after).confirmed_stall in
        (
          During-Stable w (uart_read after) refl d,
          elim (Bool-cases confirmed) [
            | inr h ↦ inl h
            | inl h ↦ inr (
                subst (λ k. Stalled (uart_read after ∷ k)) (sym e)
                  (inl (
                    subst (λ o. (assess_probe (codes o) before after).confirmed_stall ≡ true)
                      (sym same) h)))
          ],
        );
  }

  assess-Given :
      (address : String) (t : ℕ) (before : Option ℕ)
      → Triple
          (Counted before)
          (assess env address t before)
          (λ a. Given During a.confirmed_stall IsStalled)
          (λ e. Body)
  unfolding assess assess_probe occurs
  assess-Given address t none = Triple-return (λ e. Body) _ (λ w (d, h). (d, inl refl))
  assess-Given address t (some before) =
      Triple-bind (λ e. Body) (Tried (some before)) (run_probe-Tried address t (some before))
        (λ output.
          Triple-bind (λ e. Body) _ (read_again (some before) output)
            (λ after. Triple-return (λ e. Body) _ (λ w p. p)))

  pub probe-Body :
      (settings : WatchdogConfig) (state : Fields) (failed_at address : String)
      → Triple During (probe env settings state failed_at address) (λ n. Body) (λ e. Body)
  unfolding probe
  probe-Body settings state failed_at address =
      Triple-bind (λ e. Body) Counted read_uart-Counted
        (λ before.
          Triple-bind (λ e. Body) _ (assess-Given address settings.probe_timeout_seconds before)
            (λ a. conclude-Body settings state failed_at address a))
