-- ===== src/Watchdog/Run/Waits.antt =====
-- The loops of sanlight_mesh/mesh_watchdog.py end: their fuel is enough when the clock does not go back
-- and a sleep lasts as long as it says.
use sanlight_mesh_mqtt_gatew.Base.{
  ℕ, zero, suc, ◌+◌, ◌*◌, ◌≤◌, ◌≡◌, refl, Bool, true, false, Option, none, some, List, ◌∷◌, ltb,
  Result, ok, err, arith,
}
use sanlight_mesh_mqtt_gatew.Value.{Value, Fields, end}
use sanlight_mesh_mqtt_gatew.Watchdog.Incident.{as_mapping}
use sanlight_mesh_mqtt_gatew.GatewayProtocol.{second, Raised}
use sanlight_mesh_mqtt_gatew.Stateful.{◌>>=◌, return}
use sanlight_mesh_mqtt_gatew.Stateful.Rules.{
  After, Triple, Triple-bind, Triple-return, Triple-raise,
}
use sanlight_mesh_mqtt_gatew.Watchdog.Run.{
  Service, Command, is_active, find_sender, Answer, completed, expired, failed, File, gateway_state,
  read_file, Call, ran, slept, Fault, bad_config, timeout_expired, os_error, bad_state, not_written,
  bad_cdb, raised_by_time, out_of_fuel, World, Environment, Exec, log_call, answered, as_document,
  run_command, read_monotonic, sleep, read_document, service_active, give_or_wait, round, poll,
  poll_for, half_second, is_given, is_in_state, or_ask, wait_service_state, sender_is_gone,
  wait_sender_exit,
}
use sanlight_mesh_mqtt_gatew.Watchdog.Run.Probe.{
  of_times, mesh_health_of, success_time, new_success, wait_for_new_success,
}

abbrev pub is_out_of_fuel : Fault → Bool
is_out_of_fuel out_of_fuel = true
is_out_of_fuel (bad_config e) = false
is_out_of_fuel timeout_expired = false
is_out_of_fuel os_error = false
is_out_of_fuel bad_state = false
is_out_of_fuel not_written = false
is_out_of_fuel bad_cdb = false
is_out_of_fuel (raised_by_time e) = false

-- It returns or raises something else.
abbrev pub Ended : {A : Type 0} → World × Result Fault A → Type 0
Ended (w, ok a) = Unit
Ended (w, err e) = is_out_of_fuel e ≡ false

abbrev Other : Fault → World → Type 0
Other e w = is_out_of_fuel e ≡ false

module _ (env : Environment)
    (forward : (log : List Call) (c : Call) → env.monotonic log ≤ env.monotonic (c ∷ log))
    (sleeps : (log : List Call) (n : ℕ)
      → env.monotonic log + n ≤ env.monotonic (slept n ∷ log)) where
  abbrev Past : ℕ → World → Type 0
  Past t w = t ≤ env.monotonic w.log

  -- The clock has not gone back.
  abbrev Timed : {A : Type 0} → Exec A → Type 0
  Timed m = (t : ℕ) → Triple (Past t) m (λ a. Past t) Other

  Timed-next : (t : ℕ) (w : World) (c : Call) → Past t w → Past t (log_call c w)
  Timed-next t w c h = let f = forward w.log c in omega arith

  return-Timed : {A : Type 0} (a : A) → Timed (return a)
  return-Timed a t = Triple-return Other a (λ w p. p)

  bind-Timed :
      {A B : Type 0} {m : Exec A} {f : A → Exec B}
      → Timed m
      → ((a : A) → Timed (f a))
      → Timed (m >>= f)
  bind-Timed h k t = Triple-bind Other (λ a. Past t) (h t) (λ a. k a t)

  answered-After :
      (t : ℕ) (w : World) (a : Answer) → Past t w → After (λ r. Past t) Other (w, answered a)
  answered-After t w (completed code output) p = p
  answered-After t w expired p = refl
  answered-After t w failed p = refl

  run_command-Timed : (c : Command) (n : ℕ) → Timed (run_command env c n)
  unfolding run_command
  run_command-Timed c n t = record {
    run = λ w p.
        let a = env.process w.log c n in
        answered-After t (log_call (ran c n a) w) a (Timed-next t w (ran c n a) p);
  }

  service_active-Timed : (s : Service) → Timed (service_active env s)
  unfolding service_active
  service_active-Timed s = bind-Timed (run_command-Timed (is_active s) 10) (λ r. return-Timed _)

  -- Enough fuel for the pauses before the deadline.
  abbrev Enough : ℕ → ℕ → ℕ → World → Type 0
  Enough fuel deadline pause w = deadline ≤ env.monotonic w.log + fuel * pause

  sleep-Past :
      (now pause : ℕ)
      → Triple (Past now) (sleep env pause) (λ u w. now + pause ≤ env.monotonic w.log) Other
  unfolding sleep
  sleep-Past now pause = record { run = λ w p. let s = sleeps w.log pause in omega arith }

  round-ends :
      {A : Type 0} (now pause : ℕ) (b : Bool) (question again : Exec (Option A))
      → Timed question
      → Triple (λ w. now + pause ≤ env.monotonic w.log) again (λ a w. Unit) Other
      → Triple (Past now) (round env b pause question again) (λ a w. Unit) Other
  round-ends now pause false question again h k = Triple-return Other none (λ w p. tt)
  round-ends {A = A} now pause true question again h k =
      Triple-bind Other (λ a. Past now) (h now) give
    where
      give : (a : Option A) → Triple (Past now) (give_or_wait env pause a again) (λ x w. Unit) Other
      give (some a) = Triple-return Other (some a) (λ w p. tt)
      give none =
          Triple-bind Other (λ u w. now + pause ≤ env.monotonic w.log) (sleep-Past now pause)
            (λ u. k)

  later_lem :
      (now deadline fuel pause t : ℕ)
      → deadline ≤ now + suc fuel * pause
      → now + pause ≤ t
      → deadline ≤ t + fuel * pause
  later_lem now deadline fuel pause t d p = grind arith

  read-Enough :
      (fuel deadline pause : ℕ)
      → Triple
          (Enough fuel deadline pause)
          (read_monotonic env)
          (λ now w. Past now w × (deadline ≤ now + fuel * pause))
          Other
  unfolding read_monotonic
  read-Enough fuel deadline pause = record { run = λ w d. (forward w.log _, d) }

  read_start : Triple (λ w. Unit) (read_monotonic env) Past Other
  unfolding read_monotonic
  read_start = record { run = λ w u. forward w.log _ }

  stop-ends :
      {A : Type 0} (now deadline pause : ℕ) (question again : Exec (Option A))
      → deadline ≤ now + zero * pause
      → Triple (Past now) (round env (ltb now deadline) pause question again) (λ a w. Unit) Other
  stop-ends now deadline pause question again d =
      let e : ltb now deadline ≡ false = ground arith in rw e (Triple-return Other none (λ w p. tt))

  poll-ends :
      {A : Type 0} (fuel deadline pause : ℕ) (question : Exec (Option A))
      → Timed question
      → Triple
          (Enough fuel deadline pause)
          (poll env (suc fuel) deadline pause question)
          (λ a w. Unit)
          Other
  unfolding poll
  poll-ends zero deadline pause question h =
      Triple-bind Other (λ now w. Past now w × (deadline ≤ now + zero * pause))
        (read-Enough zero deadline pause)
        (λ now. record { run = λ w (p, d). (stop-ends now deadline pause question _ d).run w p })
  poll-ends (suc k) deadline pause question h =
      Triple-bind Other (λ now w. Past now w × (deadline ≤ now + suc k * pause))
        (read-Enough (suc k) deadline pause)
        (λ now. record {
          run = λ w (p, d).
              (round-ends now pause (ltb now deadline) question _ h (record {
                run = λ v q.
                    (poll-ends k deadline pause question h).run v
                      (later_lem now deadline k pause (env.monotonic v.log) d q);
              })).run
                w p;
        })

  enough_lem :
      (seconds rounds pause start t : ℕ)
      → rounds * pause ≡ second
      → start ≤ t
      → start + seconds * second ≤ t + seconds * rounds * pause
  enough_lem seconds rounds pause start t e p = grind arith

  poll_for-ends :
      {A : Type 0} (seconds rounds pause : ℕ) (question : Exec (Option A))
      → rounds * pause ≡ second
      → Timed question
      → Triple (λ w. Unit) (poll_for env seconds rounds pause question) (λ a w. Unit) Other
  unfolding poll_for
  poll_for-ends seconds rounds pause question e h = Triple-bind Other Past read_start (λ start.
      record {
        run = λ w p.
            (poll-ends (seconds * rounds) (start + seconds * second) pause question h).run w
              (enough_lem seconds rounds pause start (env.monotonic w.log) e p);
      })

  ended : {A : Type 0} (p : World × Result Fault A) → After (λ a w. Unit) Other p → Ended p
  ended (w, ok a) h = tt
  ended (w, err e) h = h

  or_ask-Timed :
      (s : Service) (active : Bool) (a : Option (Unit {0})) → Timed (or_ask env s active a)
  or_ask-Timed s active (some u) = return-Timed _
  or_ask-Timed s active none = bind-Timed (service_active-Timed s) (λ a. return-Timed _)

  asked-Timed : (s : Service) (active : Bool) → Timed (is_in_state env s active)
  unfolding is_in_state
  asked-Timed s active = bind-Timed (service_active-Timed s) (λ a. return-Timed _)

  sender_is_gone-Timed : Timed (sender_is_gone env)
  unfolding sender_is_gone
  sender_is_gone-Timed = bind-Timed (run_command-Timed find_sender 5) (λ r. return-Timed _)

  document-After :
      (t : ℕ) (w : World) (r : Option Value)
      → Past t w
      → After (λ d. Past t) Other (w, as_document r)
  document-After t w none p = refl
  document-After t w (some v) p = go (as_mapping v)
    where
      go :
          (f : Option Fields)
          → After (λ d. Past t) Other (w, elim f [ none ↦ ok end | some fs ↦ ok fs ])
      go none = p
      go (some fs) = p

  read_document-Timed : (f : File) → Timed (read_document env f)
  unfolding read_document
  read_document-Timed f t = record {
    run = λ w p.
        document-After t (log_call (read_file f) w) (env.document w.log f)
          (Timed-next t w (read_file f) p);
  }

  of_times-Timed : {A : Type 0} (r : Result Raised A) → Timed (of_times r)
  of_times-Timed (ok a) t = Triple-return Other a (λ w p. p)
  of_times-Timed (err e) t = Triple-raise Other _ (λ w p. refl)

  success_time-Timed : (h : Option Fields) → Timed (success_time env h)
  success_time-Timed none = return-Timed _
  success_time-Timed (some h) = of_times-Timed _

  new_success-Timed : (after : ℕ) → Timed (new_success env after)
  unfolding new_success
  new_success-Timed after =
      bind-Timed (read_document-Timed gateway_state)
        (λ d. bind-Timed (success_time-Timed (mesh_health_of d)) (λ o. return-Timed _))

  last_question :
      (s : Service) (active : Bool) (a : Option (Unit {0}))
      → Triple (λ w. Unit) (or_ask env s active a) (λ b w. Unit) Other
  last_question s active a = record {
    run =
        λ w p. dropped (or_ask env s active a w) ((or_ask-Timed s active a 0).run w (omega arith));
  }
    where
      dropped :
          (p : World × Result Fault Bool)
          → After (λ b. Past 0) Other p
          → After (λ b w. Unit) Other p
      dropped (w, ok b) h = tt
      dropped (w, err e) h = h

  ended_of :
      {A : Type 0} (m : Exec A)
      → Triple (λ w. Unit) m (λ a w. Unit) Other
      → (w : World) → Ended (m w)
  ended_of m h w = ended (m w) (h.run w tt)

  service_wait :
      (s : Service) (active : Bool) (seconds : ℕ)
      → Triple (λ w. Unit) (wait_service_state env s active seconds) (λ a w. Unit) Other
  unfolding wait_service_state
  service_wait s active seconds =
      Triple-bind Other (λ a v. Unit)
        (poll_for-ends seconds 2 half_second (is_in_state env s active) refl (asked-Timed s active))
        (last_question s active)

  sender_wait : Triple (λ w. Unit) (wait_sender_exit env) (λ a w. Unit) Other
  unfolding wait_sender_exit
  sender_wait =
      Triple-bind Other (λ a v. Unit)
        (poll_for-ends 20 2 half_second (sender_is_gone env) refl sender_is_gone-Timed)
        (λ a. Triple-return Other (is_given a) (λ v p. tt))

  success_wait :
      (after seconds : ℕ)
      → Triple (λ w. Unit) (wait_for_new_success env after seconds) (λ a w. Unit) Other
  unfolding wait_for_new_success
  success_wait after seconds =
      poll_for-ends seconds 1 1000000 (new_success env after) refl (new_success-Timed after)

  -- The three loops of the watchdog, which wait for a service, for the end of the sender, and for a new
  -- response, end within their fuel from every state and for every number of seconds, whatever the
  -- processes and the files answer. The clock does not go back, and a sleep takes at least its time.
  pub waits_end :
      (s : Service) (active : Bool) (seconds after : ℕ) (w : World)
      → Ended (wait_service_state env s active seconds w)
        × Ended (wait_sender_exit env w)
        × Ended (wait_for_new_success env after seconds w)
  waits_end s active seconds after w = (
    ended_of (wait_service_state env s active seconds) (service_wait s active seconds) w,
    ended_of (wait_sender_exit env) sender_wait w,
    ended_of (wait_for_new_success env after seconds) (success_wait after seconds) w,
  )
