-- ===== src/Watchdog/Run/Phases.antt =====
-- The phases of `run_watchdog` of sanlight_mesh/mesh_watchdog.py, and that what is between two of their
-- steps keeps them.
use sanlight_mesh_mqtt_gatew.Base.{
  ◌||◌, ◌&&◌, ℕ, ◌≡◌, refl, ◌⊎◌, inl, inr, Bool, true, false, Bool-cases, Option, none, some, List,
  ◌∷◌, Result, ok, err, arith,
}
use sanlight_mesh_mqtt_gatew.Value.{Fields}
use sanlight_mesh_mqtt_gatew.GatewayProtocol.{Raised}
use sanlight_mesh_mqtt_gatew.Stateful.Rules.{After, Triple}
use sanlight_mesh_mqtt_gatew.Watchdog.{WatchdogConfig}
use sanlight_mesh_mqtt_gatew.Watchdog.Run.{
  log_call, gateway_service, is_active, start_gateway, Answer, completed, expired, failed, Call,
  ran, wrote, Fault, World, Environment, Exec, has_exited_0, write_document, set_stopped,
  gateway_state,
}
use sanlight_mesh_mqtt_gatew.Watchdog.Run.Probe.{
  of_times, success_time, mesh_health_of, new_success, wait_for_new_success, verify,
}
use sanlight_mesh_mqtt_gatew.Watchdog.Run.Guard.{
  sees_inactive, sees_no_sender, is_quiet, is_alone, is_probe, is_recovery, harmless, has_stopped,
  has_recovered, some_call, Stalled, Guarded, Stable, Kept, return-Kept, raise-Kept, bind-Kept,
  read_document-Kept, poll_for-Kept,
}

abbrev pub StopDone : World → Type 0
StopDone w = some_call has_stopped w.log ≡ true

-- Before the gateway is stopped.
abbrev pub Before : World → Type 0
Before w = Guarded w.log × (some_call is_probe w.log ≡ false) × (w.stopped_gateway ≡ false)

abbrev pub Quiet : World → Type 0
Quiet w = is_quiet w.log ≡ true

abbrev pub Alone : World → Type 0
Alone w = is_alone w.log ≡ true

-- While it is; and when no sender was found.
abbrev pub Waiting : World → Type 0
Waiting w = Guarded w.log × Quiet w × (w.stopped_gateway ≡ true)

abbrev pub During : World → Type 0
During w = Guarded w.log × Alone w × (w.stopped_gateway ≡ true)

abbrev has_not_ended : Answer → Bool
has_not_ended (completed code output) = false
has_not_ended expired = true
has_not_ended failed = true

-- At the end of the `try` block.
abbrev pub Body : World → Type 0
Body w =
    Guarded w.log
    × ((some_call is_probe w.log ≡ false)
        ⊎ (some_call has_recovered w.log ≡ true)
        ⊎ (w.stopped_gateway ≡ true))

-- The last call is a start of the gateway, which has ended with any code, or a question for it, which was
-- answered that it is active.
abbrev pub is_restarted : List Call → Bool
is_restarted (ran start_gateway t (completed code output) ∷ l) = true
is_restarted (ran (is_active gateway_service) t (completed code output) ∷ l) = has_exited_0 code
is_restarted _ = false

-- The last call is a start of the gateway or a question for it that has not ended.
abbrev pub is_unanswered : List Call → Bool
is_unanswered (ran start_gateway t a ∷ l) = has_not_ended a
is_unanswered (ran (is_active gateway_service) t a ∷ l) = has_not_ended a
is_unanswered _ = false

-- When the run returns.
abbrev pub Ends : World → Type 0
Ends w =
    Guarded w.log
    × ((some_call is_probe w.log ≡ false)
        ⊎ (some_call has_recovered w.log ≡ true)
        ⊎ (is_restarted w.log ≡ true))

-- When it raises.
abbrev pub Breaks : World → Type 0
Breaks w =
    Guarded w.log
    × ((some_call is_probe w.log ≡ false)
        ⊎ (some_call has_recovered w.log ≡ true)
        ⊎ (is_restarted w.log ≡ true)
        ⊎ (is_unanswered w.log ≡ true))

pub Ends-Breaks : (w : World) → Ends w → Breaks w
Ends-Breaks w (g, inl h) = (g, inl h)
Ends-Breaks w (g, inr (inl h)) = (g, inr (inl h))
Ends-Breaks w (g, inr (inr h)) = (g, inr (inr (inl h)))

pub harmless_lem : (c : Call) → harmless c ≡ true → (is_recovery c ≡ false) × (is_probe c ≡ false)
harmless_lem c h = (ground arith, ground arith)

pub Guarded-next : (c : Call) (l : List Call) → harmless c ≡ true → Guarded l → Guarded (c ∷ l)
Guarded-next c l h g = let (r, p) = harmless_lem c h in (inl r, inl p, g)

pub none_lem :
    (p : Call → Bool) (c : Call) (l : List Call)
    → p c ≡ false
    → some_call p l ≡ false
    → some_call p (c ∷ l) ≡ false
none_lem p c l h k = rw (h, k) refl

pub some_lem :
    (p : Call → Bool) (c : Call) (l : List Call) → some_call p l ≡ true → some_call p (c ∷ l) ≡ true
some_lem p c l h = elim (Bool-cases (p c)) [ inl e ↦ rw e refl | inr e ↦ rw (e, h) refl ]

or_lem : (a b : Bool) → b ≡ true → (a || b) ≡ true
or_lem true b h = refl
or_lem false b h = h

pub Quiet-next : (w : World) (c : Call) → Quiet w → Quiet (log_call c w)
Quiet-next w c h = or_lem (sees_inactive c && some_call has_stopped w.log) (is_quiet w.log) h

pub Alone-next : (w : World) (c : Call) → Alone w → Alone (log_call c w)
Alone-next w c h = or_lem (sees_no_sender c && is_quiet w.log) (is_alone w.log) h

pub Before-Stable : Stable Before
Before-Stable w c h (g, p, s) =
    (Guarded-next c w.log h g, none_lem is_probe c w.log (harmless_lem c h).1 p, s)

pub During-Stable : Stable During
During-Stable w c h (g, p, s) = (Guarded-next c w.log h g, Alone-next w c p, s)

pub Waiting-Stable : Stable Waiting
Waiting-Stable w c h (g, p, s) = (Guarded-next c w.log h g, Quiet-next w c p, s)

-- A call that was made or not, and what that gives.
abbrev pub Given : (World → Type 0) → Bool → (World → Type 0) → World → Type 0
Given Φ b Ψ w = Φ w × ((b ≡ false) ⊎ Ψ w)

pub Given-given : {X : Type 0} → (true ≡ false) ⊎ X → X
Given-given (inl h) = cc
Given-given (inr h) = h

pub Given-Stable :
    (Φ : World → Type 0) (b : Bool) (Ψ : World → Type 0)
    → Stable Φ
    → Stable Ψ
    → Stable (Given Φ b Ψ)
Given-Stable Φ b Ψ s t w c h (p, inl e) = (s w c h p, inl e)
Given-Stable Φ b Ψ s t w c h (p, inr q) = (s w c h p, inr (t w c h q))

abbrev pub IsStalled : World → Type 0
IsStalled w = Stalled w.log

pub IsStalled-Stable : Stable IsStalled
IsStalled-Stable w c h s = inr s

pub StopDone-Stable : Stable StopDone
StopDone-Stable w c h s = some_lem has_stopped c w.log s

abbrev pub Recovered : World → Type 0
Recovered w = Guarded w.log × (some_call has_recovered w.log ≡ true)

pub Recovered-Stable : Stable Recovered
Recovered-Stable w c h (g, r) = (Guarded-next c w.log h g, some_lem has_recovered c w.log r)

pub Before-Body : (w : World) → Before w → Body w
Before-Body w (g, p, s) = (g, inl p)

pub Waiting-Body : (w : World) → Waiting w → Body w
Waiting-Body w (g, p, s) = (g, inr (inr s))

pub During-Body : (w : World) → During w → Body w
During-Body w (g, p, s) = (g, inr (inr s))

pub Recovered-Body : (w : World) → Recovered w → Body w
Recovered-Body w (g, r) = (g, inr (inl r))

pub weaken_After :
    {A : Type 0} (Q T : A → World → Type 0) (R U : Fault → World → Type 0)
    (p : World × Result Fault A)
    → ((a : A) (w : World) → Q a w → T a w)
    → ((e : Fault) (w : World) → R e w → U e w)
    → After Q R p
    → After T U p
weaken_After Q T R U (w, ok a) q r h = q a w h
weaken_After Q T R U (w, err e) q r h = r e w h

-- What holds after an exception may be weakened.
pub raises_to :
    {A : Type 0} {P : World → Type 0} {Q : A → World → Type 0} {m : Exec A} (R U : World → Type 0)
    → ((w : World) → R w → U w)
    → Triple P m Q (λ e. R)
    → Triple P m Q (λ e. U)
raises_to {Q = Q} {m = m} R U k h = record {
  run = λ w p. weaken_After Q Q (λ e. R) (λ e. U) (m w) (λ a v q. q) (λ e v q. k v q) (h.run w p);
}

-- Code that keeps a property, which implies another when it raises.
pub kept_or :
    {A : Type 0} {m : Exec A} (Φ Ψ : World → Type 0)
    → ((w : World) → Φ w → Ψ w)
    → Kept Φ m
    → Triple Φ m (λ a. Φ) (λ e. Ψ)
kept_or {m = m} Φ Ψ k h = record {
  run = λ w p.
      weaken_After (λ a. Φ) (λ a. Φ) (λ e. Φ) (λ e. Ψ) (m w) (λ a v q. q) (λ e v q. k v q)
        (h.run w p);
}

pub kept_both :
    {A : Type 0} {m : Exec A} (Φ Ψ : World → Type 0)
    → ((w : World) → Φ w → Ψ w)
    → Kept Φ m
    → Triple Φ m (λ a. Ψ) (λ e. Ψ)
kept_both {m = m} Φ Ψ k h = record {
  run = λ w p.
      weaken_After (λ a. Φ) (λ a. Ψ) (λ e. Φ) (λ e. Ψ) (m w) (λ a v q. k v q) (λ e v q. k v q)
        (h.run w p);
}

pub of_times-Kept : {A : Type 0} (Φ : World → Type 0) (r : Result Raised A) → Kept Φ (of_times r)
of_times-Kept Φ (ok a) = return-Kept Φ a
of_times-Kept Φ (err e) = raise-Kept Φ _

module _ (env : Environment) where
  pub write_document-Kept :
      (Φ : World → Type 0) → Stable Φ → (d : Fields) → Kept Φ (write_document env d)
  unfolding write_document
  write_document-Kept Φ s d = record {
    run = λ w p. elim (Bool-cases (env.can_write w.log d)) [
      | inl e ↦ rw e (s w (wrote d) refl p)
      | inr e ↦ rw e p
    ];
  }

  pub verify-Body :
      (settings : WatchdogConfig) (state : Fields) (started : ℕ)
      → Triple Recovered (verify env settings state started) (λ a. Body) (λ e. Body)
  unfolding verify set_stopped wait_for_new_success new_success
  verify-Body settings state started = kept_both Recovered Body Recovered-Body (
      bind-Kept Recovered (record { run = λ w p. p })
        (λ u.
          bind-Kept Recovered
            (poll_for-Kept env Recovered Recovered-Stable _ 1 _ _ (
              bind-Kept Recovered (read_document-Kept env Recovered Recovered-Stable gateway_state)
                (λ d.
                  bind-Kept Recovered (success_time-Kept (mesh_health_of d))
                    (λ o. return-Kept Recovered _))))
            (λ v.
              bind-Kept Recovered (write_document-Kept Recovered Recovered-Stable _)
                (λ t. return-Kept Recovered _))))
    where
      success_time-Kept : (h : Option Fields) → Kept Recovered (success_time env h)
      success_time-Kept none = return-Kept Recovered _
      success_time-Kept (some f) = of_times-Kept Recovered _
