-- ===== src/Executor/Exclusive.antt =====
-- A result of sanlight_mesh/gateway_executor.py that says that no lamp answered has no reading, and is
-- that of a read-only command: what the service counts and the watchdog acts on.
use sanlight_mesh_mqtt_gatew.Base.{
  ℕ, ◌≡◌, refl, ◌⊎◌, inl, inr, true, false, Bool-cases, not, ◌&&◌, ◌||◌, String, Option, none, some,
  List, [], ◌∷◌, ◌==◌, length, Result, ok, err,
}
use sanlight_mesh_mqtt_gatew.Value.{text, Fields}
use sanlight_mesh_mqtt_gatew.GatewayProtocol.{
  Action, set_max, refresh, read_daylight, blackout, restore_blackout, sync_clock, set_clock,
  refresh_gateway_info, Target, GatewayCommand,
}
use sanlight_mesh_mqtt_gatew.Protocol.Live.{LiveStatus}
use sanlight_mesh_mqtt_gatew.Watchdog.Incident.{in_read_only_actions}
use sanlight_mesh_mqtt_gatew.Service.{ExecutionResult}
use sanlight_mesh_mqtt_gatew.Service.Report.{action_text}
use sanlight_mesh_mqtt_gatew.Service.Worker.Reported.{is_mesh_no_response}
use sanlight_mesh_mqtt_gatew.Stateful.Rules.{
  Returns, Returns-after, Returns-value, Returns-raise, Triple-if,
}
use sanlight_mesh_mqtt_gatew.Executor.{ProcessResult, Environment, Executor, succeeded}
use sanlight_mesh_mqtt_gatew.Executor.Errors.{
  has_errors, error_details, all_errors_are_mesh_no_response,
}
use sanlight_mesh_mqtt_gatew.Executor.Read.{
  NodeReading, DaylightReading, is_empty_list, reported_of, live_of, errors_of, refresh_result,
  daylight_of, daylight_errors, verified_daylight, daylight_result, refresh as refresh_of,
  read_daylight as read_daylight_of,
}
use sanlight_mesh_mqtt_gatew.Executor.Clock.{clock_result, clock_command}
use sanlight_mesh_mqtt_gatew.Executor.Execute.{
  exit_details, live_error, failed_result, after_set_max, set_max_command, blackout_result,
  blackout_command, restored_result, restore_command, execute_action, execute,
}

-- It has a response or no failure class; or it has none at all, for an action that the watchdog takes
-- as read-only.
abbrev pub Exclusive : Action → ExecutionResult → Type 0
Exclusive action r =
    (is_mesh_no_response r.details ≡ false)
    ⊎ ((in_read_only_actions (text (action_text action)) ≡ ok true)
        × (r.is_ok ≡ false)
        × (r.reported ≡ [])
        × (r.live_reported ≡ [])
        × (r.daylight_reported ≡ []))

empty_lem : {A : Type 0} (l : List A) → is_empty_list l ≡ true → l ≡ []
empty_lem [] h = refl
empty_lem (x ∷ xs) h = cc

none_reported :
    {A B : Type 0} (l : List A) (k : List B)
    → (not (is_empty_list l) || not (is_empty_list k)) ≡ false
    → (l ≡ []) × (k ≡ [])
none_reported [] [] h = (refl, refl)
none_reported [] (y ∷ ys) h = cc
none_reported (x ∷ xs) k h = cc

not_class : (errors : Fields) → is_mesh_no_response (error_details errors) ≡ false
not_class errors = elim (Bool-cases (has_errors errors)) [ inl h ↦ rw h refl | inr h ↦ rw h refl ]

refresh_result-Exclusive :
    (target : Target) (rs : List NodeReading) → Exclusive refresh (refresh_result target rs)
unfolding refresh_result
refresh_result-Exclusive target rs =
    let any = not (is_empty_list (reported_of rs)) || not (is_empty_list (live_of rs)) in
    let complete = has_errors (errors_of rs) && all_errors_are_mesh_no_response (errors_of rs) in
    elim (Bool-cases (has_errors (errors_of rs))) [
      | inr e ↦ rw e (inl refl)
      | inl e ↦ elim (Bool-cases any) [
        | inl a ↦ rw (e, a) (inl refl)
        | inr a ↦
            let (l, k) = none_reported _ _ a in
            elim (Bool-cases (all_errors_are_mesh_no_response (errors_of rs))) [
              | inr c ↦ rw (e, a, c) (inl refl)
              | inl c ↦ rw (e, a, c) (inr (refl, refl, l, k, refl))
            ]
      ]
    ]

live_class :
    (p : ProcessResult) (r : Result String LiveStatus)
    → is_mesh_no_response (exit_details p (live_error r)) ≡ false
live_class p (ok s) = refl
live_class p (err e) = refl

module _ (env : Environment) (executor : Executor) where
  daylight_result-Exclusive :
      (target : Target) (rs : List DaylightReading)
      → Exclusive read_daylight (daylight_result env executor target rs)
  unfolding daylight_result
  daylight_result-Exclusive target rs =
      let errors = daylight_errors env executor rs in
      elim (Bool-cases (verified_daylight rs == length rs)) [
        | inl v ↦ rw v (inl refl)
        | inr v ↦ elim (Bool-cases (is_empty_list (daylight_of rs))) [
          | inr d ↦ rw (v, d) (inl (not_class errors))
          | inl d ↦
              elim (Bool-cases (has_errors errors && all_errors_are_mesh_no_response errors)) [
                | inr c ↦ rw (v, d, c) (inl (not_class errors))
                | inl c ↦ rw (v, d, c) (inr (refl, refl, refl, refl, empty_lem _ d))
              ]
        ]
      ]

  failed-Exclusive :
      (action : Action) (p : ProcessResult) → Exclusive action (failed_result env executor p)
  unfolding failed_result
  failed-Exclusive action p = inl refl

  set_max-Exclusive :
      (target : String) (value : Option ℕ)
      → Returns (set_max_command env executor target value) (Exclusive set_max)
  unfolding set_max_command after_set_max
  set_max-Exclusive target none = Returns-raise _ _
  set_max-Exclusive target (some value) = Returns-after _ _ (λ p.
      Triple-if (λ e s. Unit) (succeeded p)
        (Returns-after _ _ (λ q. Returns-value _ _ (inl (live_class p _))))
        (Returns-value _ _ (failed-Exclusive set_max p)))

  blackout-Exclusive :
      (target : Target) → Returns (blackout_command env executor target) (Exclusive blackout)
  unfolding blackout_command blackout_result
  blackout-Exclusive target = Returns-after _ _ (λ p.
      Returns-value _ _ (elim (Bool-cases (succeeded p)) [
        | inl h ↦ rw h (inl refl)
        | inr h ↦ rw h (failed-Exclusive blackout p)
      ]))

  restore-Exclusive : Returns (restore_command env executor) (Exclusive restore_blackout)
  unfolding restore_command restored_result
  restore-Exclusive = Returns-after _ _ (λ p.
      Triple-if (λ e s. Unit) (succeeded p)
        (Returns-after _ _ (λ reported. Returns-value _ _ (inl refl)))
        (Returns-value _ _ (failed-Exclusive restore_blackout p)))

  clock-Exclusive :
      (action : Action) (c : GatewayCommand)
      → Returns (clock_command env executor c) (Exclusive action)
  unfolding clock_command clock_result
  clock-Exclusive action c =
      Returns-after _ _ (λ now. Returns-after _ _ (λ rs. Returns-value _ _ (inl refl)))

  action-Exclusive :
      (action : Action) (c : GatewayCommand)
      → Returns (execute_action env executor action c) (Exclusive action)
  unfolding execute_action refresh_of read_daylight_of
  action-Exclusive refresh_gateway_info c = Returns-value _ _ (inl refl)
  action-Exclusive sync_clock c = clock-Exclusive sync_clock c
  action-Exclusive set_clock c = clock-Exclusive set_clock c
  action-Exclusive read_daylight c =
      Returns-after _ _ (λ rs. Returns-value _ _ (daylight_result-Exclusive c.target rs))
  action-Exclusive refresh c =
      Returns-after _ _ (λ rs. Returns-value _ _ (refresh_result-Exclusive c.target rs))
  action-Exclusive set_max c = set_max-Exclusive _ c.value
  action-Exclusive blackout c = blackout-Exclusive c.target
  action-Exclusive restore_blackout c = restore-Exclusive

  -- Whatever the processes print: if the result of a command has the class "mesh-no-response", the
  -- command is one that the watchdog takes as read-only, it is not a success, and it reports no
  -- brightness, no live status and no daylight status.
  pub execute-Exclusive :
      (c : GatewayCommand) → Returns (execute env executor c) (Exclusive c.action)
  unfolding execute
  execute-Exclusive c = action-Exclusive c.action c
