-- ===== src/Watchdog/Run/Guard.antt =====
-- What sanlight_mesh/mesh_watchdog.py keeps in its log: calls that neither probe nor recover change
-- nothing of it.
use sanlight_mesh_mqtt_gatew.Base.{
  ℕ, ◌≡◌, refl, ◌⊎◌, Bool, true, false, not, ◌||◌, ◌&&◌, String, Option, none, some, List, [], ◌∷◌,
  codes, ltb, Result, ok, err, zero, suc,
}
use sanlight_mesh_mqtt_gatew.Value.{boolean, text, Fields, get}
use sanlight_mesh_mqtt_gatew.Stateful.{◌>>=◌, return, raise}
use sanlight_mesh_mqtt_gatew.Stateful.Rules.{
  After, Triple, Triple-bind, Triple-return, Triple-raise,
}
use sanlight_mesh_mqtt_gatew.Watchdog.{assess_probe}
use sanlight_mesh_mqtt_gatew.Watchdog.Run.{
  gateway_service, Service, Command, is_active, stop_gateway, find_sender, recover_mesh, get_live,
  Answer, completed, expired, failed, File, Call, ran, read_file, wrote, uart_read, utc_read,
  monotonic_read, slept, Fault, World, Environment, Exec, has_exited_0, log_call, answered,
  as_document, half_second, run_command, read_monotonic, utc_now, sleep, read_document,
  service_active, give_or_wait, round, poll, poll_for, is_in_state, or_ask, wait_service_state,
  sender_is_gone, wait_sender_exit,
}

abbrev pub is_probe : Call → Bool
is_probe (ran (get_live node_address) t a) = true
is_probe _ = false

abbrev pub is_recovery : Call → Bool
is_recovery (ran recover_mesh t a) = true
is_recovery _ = false

abbrev pub harmless : Call → Bool
harmless c = not (is_probe c) && not (is_recovery c)

abbrev pub has_succeeded : Answer → Bool
has_succeeded (completed code output) = has_exited_0 code
has_succeeded expired = false
has_succeeded failed = false

abbrev pub has_stopped : Call → Bool
has_stopped (ran stop_gateway t a) = has_succeeded a
has_stopped _ = false

abbrev pub has_recovered : Call → Bool
has_recovered (ran recover_mesh t a) = has_succeeded a
has_recovered _ = false

abbrev pub some_call : (Call → Bool) → List Call → Bool
some_call p [] = false
some_call p (c ∷ l) = p c || some_call p l

abbrev pub output_of : Answer → String
output_of (completed code output) = output
output_of expired = ""
output_of failed = ""

-- The last three calls are a probe between two readings of the counter, which confirm a stall.
abbrev pub Measured : List Call → Type 0
Measured (uart_read after ∷ ran (get_live node_address) t a ∷ uart_read before ∷ l) =
    (assess_probe (codes (output_of a)) before after).confirmed_stall ≡ true
Measured _ = ⊥

abbrev pub Stalled : List Call → Type 0
Stalled [] = ⊥
Stalled (c ∷ l) = Measured (c ∷ l) ⊎ Stalled l

-- The last call has stored that a recovery was started and is not yet verified, after a stall.
abbrev pub Backed : List Call → Type 0
Backed [] = ⊥
Backed (c ∷ l) =
    ((d : Fields) × (c ≡ wrote d)
      × (get d "lastRecoveryOk" ≡ some (boolean false))
      × ((time : String) × (get d "lastRecoveryAt" ≡ some (text time))))
    × Stalled l

abbrev pub is_inactive : Answer → Bool
is_inactive (completed code output) = not (has_exited_0 code)
is_inactive expired = false
is_inactive failed = false

-- The gateway was seen to be inactive.
abbrev pub sees_inactive : Call → Bool
sees_inactive (ran (is_active gateway_service) t a) = is_inactive a
sees_inactive _ = false

-- No sender was found.
abbrev pub sees_no_sender : Call → Bool
sees_no_sender (ran find_sender t a) = is_inactive a
sees_no_sender _ = false

-- The gateway was stopped with success, and seen to be inactive after that.
abbrev pub is_quiet : List Call → Bool
is_quiet [] = false
is_quiet (c ∷ l) = (sees_inactive c && some_call has_stopped l) || is_quiet l

-- And after that, no sender was found.
abbrev pub is_alone : List Call → Bool
is_alone [] = false
is_alone (c ∷ l) = (sees_no_sender c && is_quiet l) || is_alone l

-- Every probe comes when the gateway was stopped and seen to be inactive, and then no sender was found;
-- and every recovery after a stall that was stored.
abbrev pub Guarded : List Call → Type 0
Guarded [] = Unit
Guarded (c ∷ l) =
    ((is_recovery c ≡ false) ⊎ Backed l) × ((is_probe c ≡ false) ⊎ (is_alone l ≡ true)) × Guarded l

-- A property that harmless calls keep.
abbrev pub Stable : (World → Type 0) → Type 0
Stable Φ = (w : World) (c : Call) → harmless c ≡ true → Φ w → Φ (log_call c w)

abbrev pub Kept : {A : Type 0} → (World → Type 0) → Exec A → Type 0
Kept Φ m = Triple Φ m (λ a. Φ) (λ e. Φ)

module _ (Φ : World → Type 0) where
  pub result-After :
      {A : Type 0} (w : World) (r : Result Fault A) → Φ w → After (λ a. Φ) (λ e. Φ) (w, r)
  result-After w (ok a) p = p
  result-After w (err e) p = p

  pub return-Kept : {A : Type 0} (a : A) → Kept Φ (return a)
  return-Kept a = Triple-return (λ e. Φ) a (λ w p. p)

  pub raise-Kept : {A : Type 0} (e : Fault) → Kept Φ (raise {A = A} e)
  raise-Kept e = Triple-raise (λ x. Φ) e (λ w p. p)

  pub bind-Kept :
      {A B : Type 0} {m : Exec A} {f : A → Exec B}
      → Kept Φ m
      → ((a : A) → Kept Φ (f a))
      → Kept Φ (m >>= f)
  bind-Kept h k = Triple-bind (λ e. Φ) (λ a. Φ) h k

module _ (env : Environment) (Φ : World → Type 0) (stable : Stable Φ) where
  pub run_command-Kept :
      (c : Command) (t : ℕ)
      → ((a : Answer) → harmless (ran c t a) ≡ true)
      → Kept Φ (run_command env c t)
  unfolding run_command
  run_command-Kept c t h = record {
    run = λ w p.
        let a = env.process w.log c t in
        result-After Φ _ (answered a) (stable w (ran c t a) (h a) p);
  }

  pub utc_now-Kept : Kept Φ (utc_now env)
  unfolding utc_now
  utc_now-Kept = record { run = λ w p. stable w utc_read refl p }

  pub read_monotonic-Kept : Kept Φ (read_monotonic env)
  unfolding read_monotonic
  read_monotonic-Kept = record { run = λ w p. stable w monotonic_read refl p }

  pub sleep-Kept : (n : ℕ) → Kept Φ (sleep env n)
  unfolding sleep
  sleep-Kept n = record { run = λ w p. stable w (slept n) refl p }

  pub read_document-Kept : (f : File) → Kept Φ (read_document env f)
  unfolding read_document
  read_document-Kept f = record {
    run = λ w p.
        result-After Φ _ (as_document (env.document w.log f)) (stable w (read_file f) refl p);
  }

  pub service_active-Kept : (s : Service) → Kept Φ (service_active env s)
  unfolding service_active
  service_active-Kept s =
      bind-Kept Φ (run_command-Kept (is_active s) 10 (λ a. refl)) (λ r. return-Kept Φ _)

  give_or_wait-Kept :
      {A : Type 0} (pause : ℕ) (a : Option A) (again : Exec (Option A))
      → Kept Φ again
      → Kept Φ (give_or_wait env pause a again)
  give_or_wait-Kept pause (some a) again h = return-Kept Φ _
  give_or_wait-Kept pause none again h = bind-Kept Φ (sleep-Kept pause) (λ u. h)

  round-Kept :
      {A : Type 0} (b : Bool) (pause : ℕ) (question again : Exec (Option A))
      → Kept Φ question
      → Kept Φ again
      → Kept Φ (round env b pause question again)
  round-Kept false pause question again h k = return-Kept Φ _
  round-Kept true pause question again h k = bind-Kept Φ h (λ a. give_or_wait-Kept pause a again k)

  poll-Kept :
      {A : Type 0} (fuel deadline pause : ℕ) (question : Exec (Option A))
      → Kept Φ question
      → Kept Φ (poll env fuel deadline pause question)
  unfolding poll
  poll-Kept zero deadline pause question h = raise-Kept Φ _
  poll-Kept (suc fuel) deadline pause question h = bind-Kept Φ read_monotonic-Kept (λ now.
      round-Kept (ltb now deadline) pause question _ h (poll-Kept fuel deadline pause question h))

  pub poll_for-Kept :
      {A : Type 0} (seconds rounds pause : ℕ) (question : Exec (Option A))
      → Kept Φ question
      → Kept Φ (poll_for env seconds rounds pause question)
  unfolding poll_for
  poll_for-Kept seconds rounds pause question h =
      bind-Kept Φ read_monotonic-Kept (λ start. poll-Kept _ _ pause question h)

  or_ask-Kept :
      (s : Service) (active : Bool) (a : Option (Unit {0})) → Kept Φ (or_ask env s active a)
  or_ask-Kept s active (some u) = return-Kept Φ _
  or_ask-Kept s active none = bind-Kept Φ (service_active-Kept s) (λ a. return-Kept Φ _)

  pub wait_service_state-Kept :
      (s : Service) (active : Bool) (seconds : ℕ) → Kept Φ (wait_service_state env s active seconds)
  unfolding wait_service_state is_in_state
  wait_service_state-Kept s active seconds =
      bind-Kept Φ
        (poll_for-Kept seconds 2 half_second _
          (bind-Kept Φ (service_active-Kept s) (λ a. return-Kept Φ _)))
        (or_ask-Kept s active)

  pub wait_sender_exit-Kept : Kept Φ (wait_sender_exit env)
  unfolding wait_sender_exit sender_is_gone
  wait_sender_exit-Kept =
      bind-Kept Φ
        (poll_for-Kept 20 2 half_second _
          (bind-Kept Φ (run_command-Kept find_sender 5 (λ a. refl)) (λ r. return-Kept Φ _)))
        (λ a. return-Kept Φ _)
