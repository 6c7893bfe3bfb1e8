-- ===== src/Watchdog/Run/Alone.antt =====
-- What the waits of `run_watchdog` of sanlight_mesh/mesh_watchdog.py have seen when they succeed: that the
-- gateway is inactive, and that no sender is left.
use sanlight_mesh_mqtt_gatew.Base.{
  ℕ, zero, suc, ◌≡◌, refl, ◌⊎◌, inl, inr, Bool, true, false, Bool-cases, not, Option, none, some,
  ltb,
}
use sanlight_mesh_mqtt_gatew.Stateful.{return}
use sanlight_mesh_mqtt_gatew.Stateful.Rules.{
  After, Triple, Triple-bind, Triple-return, Triple-raise,
}
use sanlight_mesh_mqtt_gatew.Watchdog.Run.{
  gateway_service, is_active, find_sender, Answer, completed, expired, failed, ran, Fault, World,
  Environment, Exec, out_of_fuel, has_exited_0, log_call, answered, when, is_given, half_second,
  run_command, service_active, give_or_wait, round, poll, poll_for, is_in_state, or_ask,
  wait_service_state, sender_is_gone, wait_sender_exit,
}
use sanlight_mesh_mqtt_gatew.Watchdog.Run.Guard.{Stable, sleep-Kept, read_monotonic-Kept}
use sanlight_mesh_mqtt_gatew.Watchdog.Run.Phases.{
  StopDone, Before, Quiet, Alone, Waiting, Given, StopDone-Stable, Before-Stable, Waiting-Stable,
}

-- What is kept, and what is found when the loop finds something.
abbrev Found : {A : Type 0} → (World → Type 0) → (World → Type 0) → Exec (Option A) → Type 0
Found Φ Ψ m = Triple Φ m (λ a. Given Φ (is_given a) Ψ) (λ e. Φ)

module _ (env : Environment) (Φ Ψ : World → Type 0) (stable : Stable Φ) where
  give-Found :
      {A : Type 0} (pause : ℕ) (a : Option A) (again : Exec (Option A))
      → Found Φ Ψ again
      → Triple
          (Given Φ (is_given a) Ψ)
          (give_or_wait env pause a again)
          (λ b. Given Φ (is_given b) Ψ)
          (λ e. Φ)
  give-Found pause (some a) again h = Triple-return (λ e. Φ) (some a) (λ w p. p)
  give-Found pause none again h = record {
    run = λ w p. (Triple-bind (λ e. Φ) (λ u. Φ) (sleep-Kept env Φ stable pause) (λ u. h)).run w p.0;
  }

  round-Found :
      {A : Type 0} (b : Bool) (pause : ℕ) (question again : Exec (Option A))
      → Found Φ Ψ question
      → Found Φ Ψ again
      → Found Φ Ψ (round env b pause question again)
  round-Found false pause question again h k = Triple-return (λ e. Φ) none (λ w p. (p, inl refl))
  round-Found true pause question again h k =
      Triple-bind (λ e. Φ) (λ a. Given Φ (is_given a) Ψ) h (λ a. give-Found pause a again k)

  poll-Found :
      {A : Type 0} (fuel deadline pause : ℕ) (question : Exec (Option A))
      → Found Φ Ψ question
      → Found Φ Ψ (poll env fuel deadline pause question)
  unfolding poll
  poll-Found zero deadline pause question h = Triple-raise (λ e. Φ) out_of_fuel (λ w p. p)
  poll-Found (suc fuel) deadline pause question h =
      Triple-bind (λ e. Φ) (λ now. Φ) (read_monotonic-Kept env Φ stable)
        (λ now.
          round-Found (ltb now deadline) pause question _ h
            (poll-Found fuel deadline pause question h))

  poll_for-Found :
      {A : Type 0} (seconds rounds pause : ℕ) (question : Exec (Option A))
      → Found Φ Ψ question
      → Found Φ Ψ (poll_for env seconds rounds pause question)
  unfolding poll_for
  poll_for-Found seconds rounds pause question h =
      Triple-bind (λ e. Φ) (λ start. Φ) (read_monotonic-Kept env Φ stable)
        (λ start. poll-Found _ _ pause question h)

-- After a stop that succeeded.
abbrev pub Stopped : World → Type 0
Stopped w = Before w × StopDone w

Stopped-Stable : Stable Stopped
Stopped-Stable w c h (b, s) = (Before-Stable w c h b, StopDone-Stable w c h s)

-- An answer, and what it shows.
abbrev Shown : (World → Type 0) → (World → Type 0) → Bool → World → Type 0
Shown Φ Ψ b w = Φ w × ((b ≡ true) ⊎ Ψ w)

not_lem : {X : Type 0} (b : Bool) → (b ≡ true) ⊎ X → (not b ≡ false) ⊎ X
not_lem true h = inl refl
not_lem false (inl h) = cc
not_lem false (inr h) = inr h

module _ (env : Environment) where
  when_lem : {X : Type 0} (b : Bool) → (b ≡ true) ⊎ X → (is_given (when env (not b)) ≡ false) ⊎ X
  when_lem true h = inl refl
  when_lem false (inl h) = cc
  when_lem false (inr h) = inr h

  service_active-Shown :
      Triple Stopped (service_active env gateway_service) (Shown Stopped Quiet) (λ e. Stopped)
  unfolding service_active run_command
  service_active-Shown =
      Triple-bind (λ e. Stopped) (λ r. Shown Stopped Quiet (has_exited_0 r.0))
        (record { run = λ w p. go w (env.process w.log (is_active gateway_service) 10) p })
        (λ r. Triple-return (λ e. Stopped) (has_exited_0 r.0) (λ w p. p))
    where
      go :
          (w : World) (a : Answer)
          → Stopped w
          → After
              (λ r. Shown Stopped Quiet (has_exited_0 r.0))
              (λ e. Stopped)
              (log_call (ran (is_active gateway_service) 10 a) w, answered a)
      go w (completed code output) p = elim (Bool-cases (has_exited_0 code)) [
        | inl e ↦ (
          Stopped-Stable w (ran (is_active gateway_service) 10 (completed code output)) refl p,
          inl e,
        )
        | inr e ↦ (
          Stopped-Stable w (ran (is_active gateway_service) 10 (completed code output)) refl p,
          inr (rw (e, p.1) refl),
        )
      ]
      go w expired p = Stopped-Stable w (ran (is_active gateway_service) 10 expired) refl p
      go w failed p = Stopped-Stable w (ran (is_active gateway_service) 10 failed) refl p

  or_ask-Found :
      (a : Option (Unit {0}))
      → Triple
          (Given Stopped (is_given a) Quiet)
          (or_ask env gateway_service false a)
          (λ b. Given Stopped b Quiet)
          (λ e. Stopped)
  or_ask-Found (some u) = Triple-return (λ e. Stopped) true (λ w p. p)
  or_ask-Found none =
      Triple-bind (λ e. Stopped) (Shown Stopped Quiet)
        (record { run = λ w p. service_active-Shown.run w p.0 })
        (λ a. Triple-return (λ e. Stopped) (not a) (λ w (p, h). (p, not_lem a h)))

  -- The wait for the gateway succeeds only when it was seen to be inactive after the stop.
  pub wait_inactive-Quiet :
      (seconds : ℕ)
      → Triple Stopped
          (wait_service_state env gateway_service false seconds)
          (λ b. Given Stopped b Quiet)
          (λ e. Stopped)
  unfolding wait_service_state is_in_state
  wait_inactive-Quiet seconds =
      Triple-bind (λ e. Stopped) (λ a. Given Stopped (is_given a) Quiet)
        (poll_for-Found env Stopped Quiet Stopped-Stable seconds 2 half_second
          (is_in_state env gateway_service false)
          (Triple-bind (λ e. Stopped) (Shown Stopped Quiet) service_active-Shown
            (λ a. Triple-return (λ e. Stopped) (when env (not a)) (λ w (p, h). (p, when_lem a h)))))
        or_ask-Found

  find_sender-Shown :
      Triple Waiting
        (run_command env find_sender 5)
        (λ r. Shown Waiting Alone (has_exited_0 r.0))
        (λ e. Waiting)
  unfolding run_command
  find_sender-Shown = record { run = λ w p. go w (env.process w.log find_sender 5) p }
    where
      go :
          (w : World) (a : Answer)
          → Waiting w
          → After
              (λ r. Shown Waiting Alone (has_exited_0 r.0))
              (λ e. Waiting)
              (log_call (ran find_sender 5 a) w, answered a)
      go w (completed code output) (g, q, s) = elim (Bool-cases (has_exited_0 code)) [
        | inl e ↦
            (Waiting-Stable w (ran find_sender 5 (completed code output)) refl (g, q, s), inl e)
        | inr e ↦ (
          Waiting-Stable w (ran find_sender 5 (completed code output)) refl (g, q, s),
          inr (rw (e, q) refl),
        )
      ]
      go w expired p = Waiting-Stable w (ran find_sender 5 expired) refl p
      go w failed p = Waiting-Stable w (ran find_sender 5 failed) refl p

  given_lem :
      (a : Option (Unit {0}))
      → Triple
          (Given Waiting (is_given a) Alone)
          (return {S = World} {E = Fault} (is_given a))
          (λ b. Given Waiting b Alone)
          (λ e. Waiting)
  given_lem a = Triple-return (λ e. Waiting) (is_given a) (λ w p. p)

  -- The wait for the sender succeeds only when none was found.
  pub wait_sender_exit-Alone :
      Triple Waiting (wait_sender_exit env) (λ b. Given Waiting b Alone) (λ e. Waiting)
  unfolding wait_sender_exit sender_is_gone
  wait_sender_exit-Alone =
      Triple-bind (λ e. Waiting) (λ a. Given Waiting (is_given a) Alone)
        (poll_for-Found env Waiting Alone Waiting-Stable 20 2 half_second (sender_is_gone env) (
          Triple-bind (λ e. Waiting) (λ r. Shown Waiting Alone (has_exited_0 r.0)) find_sender-Shown
            (λ r.
              Triple-return (λ e. Waiting) (when env (not (has_exited_0 r.0)))
                (λ w (p, h). (p, when_lem (has_exited_0 r.0) h)))))
        given_lem
