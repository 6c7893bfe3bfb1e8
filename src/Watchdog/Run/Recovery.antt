-- ===== src/Watchdog/Run/Recovery.antt =====
-- The recovery in `run_watchdog` of sanlight_mesh/mesh_watchdog.py.
use sanlight_mesh_mqtt_gatew.Base.{
  ℕ, ◌≡◌, refl, inl, inr, Bool, true, false, Bool-cases, String, some, List, [], ◌∷◌, ◌++◌,
  if◌then◌else◌,
}
use sanlight_mesh_mqtt_gatew.Value.{boolean, text, array, Fields, get}
use sanlight_mesh_mqtt_gatew.GatewayStore.Dict.{put, get-put_same, get-put_other}
use sanlight_mesh_mqtt_gatew.Stateful.{return}
use sanlight_mesh_mqtt_gatew.Stateful.Rules.{After, Triple, Triple-bind, Triple-return}
use sanlight_mesh_mqtt_gatew.Watchdog.{WatchdogConfig}
use sanlight_mesh_mqtt_gatew.Watchdog.Run.{
  recover_mesh, Answer, completed, expired, failed, ran, wrote, World, Environment, has_exited_0,
  log_call, answered, run_command, write_document,
}
use sanlight_mesh_mqtt_gatew.Watchdog.Run.Probe.{times, recovering_state, verify, recover}
use sanlight_mesh_mqtt_gatew.Watchdog.Run.Guard.{
  has_recovered, some_call, Backed, Guarded, utc_now-Kept,
}
use sanlight_mesh_mqtt_gatew.Watchdog.Run.Phases.{
  During, Body, Guarded-next, During-Stable, Given, Given-given, IsStalled, During-Body, kept_or,
  verify-Body,
}

-- The state that a recovery stores first.
abbrev IsSaved : Fields → Type 0
IsSaved d =
    (get d "lastRecoveryOk" ≡ some (boolean false))
    × ((time : String) × (get d "lastRecoveryAt" ≡ some (text time)))

module _ (env : Environment) where
  recovering-IsSaved :
      (state : Fields) (started : ℕ) (history : List ℕ)
      → IsSaved (recovering_state env state started history)
  unfolding recovering_state
  recovering-IsSaved state started history =
      let time = text (env.isoformat started) in
      let s₁ = put state "lastRecoveryAt" time in
      let reason = text "accepted read-only probe with zero UART TX" in
      let s₂ = put s₁ "lastRecoveryReason" reason in
      let s₃ = put s₂ "lastRecoveryOk" (boolean false) in
      (
        rw (get-put_other s₃ "recoveryHistory" "lastRecoveryOk" (array (times env history)) refl)
            (get-put_same s₂ "lastRecoveryOk" (boolean false)),
        (
          env.isoformat started,
          rw
              (
                get-put_other s₃ "recoveryHistory" "lastRecoveryAt" (array (times env history))
                    refl,
                get-put_other s₂ "lastRecoveryOk" "lastRecoveryAt" (boolean false) refl,
                get-put_other s₁ "lastRecoveryReason" "lastRecoveryAt" reason refl,
              )
              (get-put_same state "lastRecoveryAt" time),
        ),
      )

  -- A stall was found, the state is stored, and nothing was called since.
  abbrev Ready : World → Type 0
  Ready w = Guarded w.log × Backed w.log × (w.stopped_gateway ≡ true)

  store-Ready :
      (d : Fields)
      → IsSaved d
      → Triple (λ w. During w × IsStalled w) (write_document env d) (λ u. Ready) (λ e. Body)
  unfolding write_document
  store-Ready d (o, (time, t)) = record {
    run = λ w ((g, p, s), stalled). elim (Bool-cases (env.can_write w.log d)) [
      | inl e ↦ rw e (Guarded-next (wrote d) w.log refl g, ((d, refl, o, (time, t)), stalled), s)
      | inr e ↦ rw e (g, inr (inr s))
    ];
  }

  recover_command-After :
      Triple Ready
        (run_command env recover_mesh 120)
        (λ r.
          Given
            (λ w. Guarded w.log × (w.stopped_gateway ≡ true))
            (has_exited_0 r.0)
            (λ w. some_call has_recovered w.log ≡ true))
        (λ e. Body)
  unfolding run_command
  recover_command-After = record { run = λ w p. go w (env.process w.log recover_mesh 120) p }
    where
      go :
          (w : World) (a : Answer)
          → Ready w
          → After
              (λ r.
                Given
                  (λ v. Guarded v.log × (v.stopped_gateway ≡ true))
                  (has_exited_0 r.0)
                  (λ v. some_call has_recovered v.log ≡ true))
              (λ e. Body)
              (log_call (ran recover_mesh 120 a) w, answered a)
      go w (completed code output) (g, b, s) = elim (Bool-cases (has_exited_0 code)) [
        | inl e ↦ (((inr b, inl refl, g), s), inr (rw e refl))
        | inr e ↦ (((inr b, inl refl, g), s), inl e)
      ]
      go w expired (g, b, s) = ((inr b, inl refl, g), inr (inr s))
      go w failed (g, b, s) = ((inr b, inl refl, g), inr (inr s))

  if_recovered-Body :
      (settings : WatchdogConfig) (state : Fields) (started : ℕ) (b : Bool)
      → Triple
          (Given
            (λ w. Guarded w.log × (w.stopped_gateway ≡ true))
            b
            (λ w. some_call has_recovered w.log ≡ true))
          (if b then verify env settings state started else return 1)
          (λ a. Body)
          (λ e. Body)
  if_recovered-Body settings state started true = record {
    run = λ w p. (verify-Body env settings state started).run w (p.0.0, Given-given p.1);
  }
  if_recovered-Body settings state started false =
      Triple-return (λ e. Body) 1 (λ w ((g, s), h). (g, inr (inr s)))

  pub recover-Body :
      (settings : WatchdogConfig) (state : Fields) (history : List ℕ)
      → Triple
          (λ w. During w × IsStalled w)
          (recover env settings state history)
          (λ a. Body)
          (λ e. Body)
  unfolding recover
  recover-Body settings state history =
      Triple-bind (λ e. Body) (λ a w. During w × IsStalled w)
        (kept_or (λ w. During w × IsStalled w) Body (λ w (d, s). During-Body w d)
          (utc_now-Kept env (λ w. During w × IsStalled w)
            (λ w c h (d, s). (During-Stable w c h d, inr s))))
        (λ started.
          Triple-bind (λ e. Body) (λ u. Ready)
            (store-Ready _ (recovering-IsSaved state started (history ++ (started ∷ []))))
            (λ u.
              Triple-bind (λ e. Body) _ recover_command-After
                (λ r. if_recovered-Body settings _ started (has_exited_0 r.0))))
