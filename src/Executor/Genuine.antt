-- ===== src/Executor/Genuine.antt =====
-- Where the readings in a result of sanlight_mesh/gateway_executor.py come from: a process that was run for
-- the lamp they are reported for.
use sanlight_mesh_mqtt_gatew.Base.{
  ℕ, ◌≡◌, refl, ◌⊎◌, inl, inr, Bool, true, false, Bool-cases, not, if◌then◌else◌, ◌&&◌, ◌||◌,
  String, Option, none, some, List, [], ◌∷◌, ◌==◌, length, All, Result, ok, err, str_eq, eq_iff, ap,
  subst,
}
use sanlight_mesh_mqtt_gatew.GatewayProtocol.{
  Action, set_max, refresh, read_daylight, blackout, restore_blackout, sync_clock, set_clock,
  refresh_gateway_info, GatewayCommand,
}
use sanlight_mesh_mqtt_gatew.Protocol.Live.{LiveStatus}
use sanlight_mesh_mqtt_gatew.Protocol.Daylight.{DaylightStatus}
use sanlight_mesh_mqtt_gatew.Service.{ExecutionResult}
use sanlight_mesh_mqtt_gatew.Service.Report.{target_text}
use sanlight_mesh_mqtt_gatew.Stateful.{lift}
use sanlight_mesh_mqtt_gatew.Stateful.Rules.{
  After, Returns, Returns-then, Returns-after, Returns-value, Returns-raise,
}
use sanlight_mesh_mqtt_gatew.Executor.{
  ProcessResult, Call, ran, Exec, Fault, Environment, Executor, succeeded, or_timed_out,
  run_process,
}
use sanlight_mesh_mqtt_gatew.Executor.Parse.{
  parse_get_max, parse_get_live, parse_get_daylight, parse_reported_values, summary,
}
use sanlight_mesh_mqtt_gatew.Executor.Errors.{has_errors, all_errors_are_mesh_no_response}
use sanlight_mesh_mqtt_gatew.Executor.Read.{
  NodeReading, DaylightReading, matched, if_succeeded, is_empty_list, add_entry, reported_of,
  live_of, errors_of, refresh_node, refresh_nodes, refresh_result, daylight_of, daylight_errors,
  verified_daylight, read_daylight_node, read_daylight_nodes, daylight_result,
  refresh as refresh_of, read_daylight as read_daylight_of,
}
use sanlight_mesh_mqtt_gatew.Executor.Clock.{
  ClockReading, add_live, clock_live, clock_result, check_clock, if_read, write_clock, write_clocks,
  clock_command,
}
use sanlight_mesh_mqtt_gatew.Executor.Execute.{
  failed_result, after_set_max, set_max_command, blackout_result, blackout_command, restored_result,
  restore_command, execute_action,
}

-- A reading, if there is one.
abbrev Sound : {A : Type 0} → (String × A → Type 0) → String → Result String A → Type 0
Sound P a (ok v) = P (a, v)
Sound P a (err e) = Unit

abbrev SoundLive : (String × LiveStatus → Type 0) → String → Option LiveStatus → Type 0
SoundLive P a none = Unit
SoundLive P a (some s) = P (a, s)

module _ {A : Type 0} (P : String × A → Type 0) where
  if_succeeded-Sound :
      (a : String) (b : Bool) (o : Option A) (m : String)
      → ((v : A) → b ≡ true → o ≡ some v → P (a, v))
      → Sound P a (if_succeeded b o m)
  if_succeeded-Sound a true (some v) m h = h v refl refl
  if_succeeded-Sound a true none m h = tt
  if_succeeded-Sound a false o m h = tt

  add_entry-All :
      (a : String) (r : Result String A) (l : List (String × A))
      → Sound P a r
      → All P l
      → All P (add_entry a r l)
  add_entry-All a (ok v) l s h = (s, h)
  add_entry-All a (err e) l s h = h

matched_lem :
    {A : Type 0} (a : String) (o : Option (String × A)) (v : A)
    → matched a o ≡ some v
    → o ≡ some (a, v)
matched_lem a none v h = cc
matched_lem a (some (b, w)) v h = elim (Bool-cases (str_eq b a)) [
  | inr e ↦ cc (rw e at h)
  | inl e ↦
      let same : b ≡ a = (eq_iff b a).0 e in
      let k : some w ≡ some v = rw e at h in
      rw same (ap (λ x. elim x [ none ↦ some (a, w) | some y ↦ some (a, y) ]) k)
]

lift-Returns : {A : Type 0} (r : Result Fault A) → Returns {S = List Call} (lift r) (λ x. r ≡ ok x)
unfolding lift
lift-Returns (ok a) = record { run = λ s u. refl }
lift-Returns (err e) = record { run = λ s u. tt }

module _ (env : Environment) where
  -- A process was run with these arguments, and gave this.
  abbrev pub Ran : List String → ProcessResult → Type 0
  Ran arguments p = (calls : List Call) × (limit : ℕ) × (env.process calls arguments limit ≡ some p)

  abbrev pub MaxRead : String × ℕ → Type 0
  MaxRead (a, v) =
      (p : ProcessResult) × Ran ("get-max" ∷ a ∷ []) p
      × (succeeded p ≡ true)
      × (parse_get_max env p ≡ ok (some (a, v)))

  abbrev pub LiveRead : String × LiveStatus → Type 0
  LiveRead (a, s) =
      (p : ProcessResult) × Ran ("get-live" ∷ a ∷ []) p
      × (succeeded p ≡ true)
      × (parse_get_live env p ≡ some (a, s))

  abbrev pub DaylightRead : String × DaylightStatus → Type 0
  DaylightRead (a, s) =
      (p : ProcessResult) × Ran ("get-daylight" ∷ a ∷ []) p
      × (parse_get_daylight env p ≡ ok (some (a, s)))

  -- The readings of a result, whether it is a success or not.
  abbrev pub Genuine : GatewayCommand → Action → ExecutionResult → Type 0
  Genuine c refresh r = All MaxRead r.reported × All LiveRead r.live_reported
  Genuine c read_daylight r = All DaylightRead r.daylight_reported
  Genuine c sync_clock r = All LiveRead r.live_reported
  Genuine c set_clock r = All LiveRead r.live_reported
  Genuine c set_max r =
      All LiveRead r.live_reported
      × ((r.is_ok ≡ false)
          ⊎ ((value : ℕ) × (p : ProcessResult) × (c.value ≡ some value)
              × Ran ("set-max" ∷ target_text c.target ∷ env.number_text value ∷ []) p
              × (succeeded p ≡ true)))
  Genuine c blackout r =
      (r.is_ok ≡ false)
      ⊎ ((p : ProcessResult) × Ran ("blackout" ∷ target_text c.target ∷ "--confirm-blackout" ∷ []) p
          × (succeeded p ≡ true))
  Genuine c restore_blackout r =
      (r.is_ok ≡ false)
      ⊎ ((p : ProcessResult) × Ran ("restore-blackout" ∷ "latest" ∷ "--confirm-restore" ∷ []) p
          × (succeeded p ≡ true)
          × (parse_reported_values env p ≡ ok r.reported))
  Genuine c refresh_gateway_info r = r.live_reported ≡ []

  run_process-Ran :
      (arguments : List String) (limit : ℕ)
      → Returns (run_process env arguments limit) (Ran arguments)
  unfolding run_process
  run_process-Ran arguments limit = record {
    run = λ calls u. go calls (env.process calls arguments limit) refl;
  }
    where
      go :
          (calls : List Call) (o : Option ProcessResult)
          → env.process calls arguments limit ≡ o
          → After
              (λ p s. Ran arguments p)
              (λ e s. Unit)
              (or_timed_out o (ran arguments limit ∷ calls))
      go calls none e = tt
      go calls (some p) e = (calls, limit, e)

  abbrev IsGenuine : NodeReading → Type 0
  IsGenuine n = Sound MaxRead n.address n.max_brightness × Sound LiveRead n.address n.live

  reported-All :
      (rs : List NodeReading)
      → All IsGenuine rs
      → All MaxRead (reported_of rs) × All LiveRead (live_of rs)
  unfolding reported_of live_of
  reported-All [] h = (tt, tt)
  reported-All (n ∷ r) ((m, l), h) =
      let (a, b) = reported-All r h in
      (
        add_entry-All MaxRead n.address n.max_brightness (reported_of r) m a,
        add_entry-All LiveRead n.address n.live (live_of r) l b,
      )

  refresh_result-Genuine :
      (c : GatewayCommand) (rs : List NodeReading)
      → All IsGenuine rs
      → Genuine c refresh (refresh_result c.target rs)
  unfolding refresh_result
  refresh_result-Genuine c rs h =
      let errors = errors_of rs in
      let any = not (is_empty_list (reported_of rs)) || not (is_empty_list (live_of rs)) in
      elim (Bool-cases (has_errors errors)) [
        | inr e ↦ rw e (reported-All rs h)
        | inl e ↦ elim (Bool-cases (not any && all_errors_are_mesh_no_response errors)) [
          | inl a ↦ rw (e, a) (reported-All rs h)
          | inr a ↦ rw (e, a) (reported-All rs h)
        ]
      ]

  abbrev IsGenuineDaylight : DaylightReading → Type 0
  IsGenuineDaylight n = Sound DaylightRead n.address n.daylight

  daylight-All :
      (rs : List DaylightReading) → All IsGenuineDaylight rs → All DaylightRead (daylight_of rs)
  unfolding daylight_of
  daylight-All [] h = tt
  daylight-All (n ∷ r) (d, h) =
      add_entry-All DaylightRead n.address n.daylight (daylight_of r) d (daylight-All r h)

  live_matched :
      (a : String) (p : ProcessResult)
      → Ran ("get-live" ∷ a ∷ []) p
      → (s : LiveStatus) → succeeded p ≡ true
      → matched a (parse_get_live env p) ≡ some s
      → LiveRead (a, s)
  live_matched a p r s b m = (p, r, b, matched_lem a (parse_get_live env p) s m)

  if_read-SoundLive :
      (a : String) (p : ProcessResult) (b : Bool) (o : Option LiveStatus)
      → ((s : LiveStatus) → b ≡ true → o ≡ some s → LiveRead (a, s))
      → (executor : Executor) → SoundLive LiveRead a (if_read env executor b o)
  if_read-SoundLive a p true (some s) h executor = h s refl refl
  if_read-SoundLive a p true none h executor = tt
  if_read-SoundLive a p false o h executor = tt

  abbrev IsGenuineClock : ClockReading → Type 0
  IsGenuineClock r = SoundLive LiveRead r.lamp.address r.live

  clock-All : (rs : List ClockReading) → All IsGenuineClock rs → All LiveRead (clock_live rs)
  unfolding clock_live
  clock-All [] h = tt
  clock-All (r ∷ rs) (s, h) = go r.live s (clock-All rs h)
    where
      go :
          (o : Option LiveStatus)
          → SoundLive LiveRead r.lamp.address o
          → All LiveRead (clock_live rs)
          → All LiveRead (add_live r.lamp.address o (clock_live rs))
      go none s k = k
      go (some x) s k = (s, k)

  module _ (executor : Executor) where
    refresh_nodes-Genuine :
        (targets : List String) → Returns (refresh_nodes env executor targets) (All IsGenuine)
    unfolding refresh_nodes refresh_node
    refresh_nodes-Genuine [] = Returns-value _ _ tt
    refresh_nodes-Genuine (a ∷ r) =
        Returns-then IsGenuine _
          (Returns-then (Ran ("get-max" ∷ a ∷ [])) _ (run_process-Ran _ _) (λ p h.
            Returns-then (λ m. parse_get_max env p ≡ ok m) _ (lift-Returns _)
              (λ m k. Returns-then (Ran ("get-live" ∷ a ∷ [])) _ (run_process-Ran _ _) (λ q l.
                Returns-value IsGenuine _ (
                  if_succeeded-Sound MaxRead a (succeeded p) (matched a m) (summary env p) (λ v b e.
                      (p, h, b, subst (λ x. parse_get_max env p ≡ ok x) (matched_lem a m v e) k)),
                  if_succeeded-Sound LiveRead a (succeeded q) (matched a (parse_get_live env q))
                      (summary env q) (λ s b e. live_matched a q l s b e),
                )))))
          (λ n h.
            Returns-then (All IsGenuine) _ (refresh_nodes-Genuine r)
              (λ rs k. Returns-value _ _ (h, k)))

    read_daylight_nodes-Genuine :
        (targets : List String)
        → Returns (read_daylight_nodes env executor targets) (All IsGenuineDaylight)
    unfolding read_daylight_nodes read_daylight_node
    read_daylight_nodes-Genuine [] = Returns-value _ _ tt
    read_daylight_nodes-Genuine (a ∷ r) =
        Returns-then IsGenuineDaylight _
          (Returns-then (Ran ("get-daylight" ∷ a ∷ [])) _ (run_process-Ran _ _) (λ p h.
            Returns-then (λ m. parse_get_daylight env p ≡ ok m) _ (lift-Returns _)
              (λ m k. Returns-value IsGenuineDaylight _ (
                if_succeeded-Sound DaylightRead a true (matched a m) (summary env p) (λ v b e.
                  (p, h, subst (λ x. parse_get_daylight env p ≡ ok x) (matched_lem a m v e) k))))))
          (λ n h.
            Returns-then (All IsGenuineDaylight) _ (read_daylight_nodes-Genuine r)
              (λ rs k. Returns-value _ _ (h, k)))

    check_clock-Genuine :
        (c : GatewayCommand) (a : String) (written started : ℕ) (p q : ProcessResult)
        (o : Option LiveStatus)
        → SoundLive LiveRead a o
        → Returns (check_clock env executor c a written started p q o) IsGenuineClock
    unfolding check_clock
    check_clock-Genuine c a written started p q none h = Returns-value IsGenuineClock _ tt
    check_clock-Genuine c a written started p q (some s) h =
        Returns-after _ _ (λ expected. Returns-value IsGenuineClock _ h)

    write_clocks-Genuine :
        (c : GatewayCommand) (started : ℕ) (targets : List String)
        → Returns (write_clocks env executor c started targets) (All IsGenuineClock)
    unfolding write_clocks write_clock
    write_clocks-Genuine c started [] = Returns-value _ _ tt
    write_clocks-Genuine c started (a ∷ r) =
        Returns-then IsGenuineClock _
          (Returns-after _ _ (λ w. Returns-after _ _ (λ t. Returns-after _ _ (λ p.
            Returns-then (Ran ("get-live" ∷ a ∷ [])) _ (run_process-Ran _ _) (λ q l.
              check_clock-Genuine c a w t p q _ (
                if_read-SoundLive a q (succeeded q) (matched a (parse_get_live env q))
                  (λ s b e. live_matched a q l s b e) executor))))))
          (λ n h.
            Returns-then (All IsGenuineClock) _ (write_clocks-Genuine c started r)
              (λ rs k. Returns-value _ _ (h, k)))

    daylight_result-Genuine :
        (c : GatewayCommand) (rs : List DaylightReading)
        → All IsGenuineDaylight rs
        → Genuine c read_daylight (daylight_result env executor c.target rs)
    unfolding daylight_result
    daylight_result-Genuine c rs h =
        let errors = daylight_errors env executor rs in
        elim (Bool-cases (verified_daylight rs == length rs)) [
          | inl v ↦ rw v (daylight-All rs h)
          | inr v ↦ elim (Bool-cases (is_empty_list (daylight_of rs))) [
            | inr d ↦ rw (v, d) (daylight-All rs h)
            | inl d ↦
                elim (Bool-cases (has_errors errors && all_errors_are_mesh_no_response errors)) [
                  | inr k ↦ rw (v, d, k) (daylight-All rs h)
                  | inl k ↦ rw (v, d, k) (daylight-All rs h)
                ]
          ]
        ]

    -- A command that is one process: what follows depends on its exit code.
    when_succeeded :
        {A : Type 0} (Q : A → Type 0) (p : ProcessResult) {m n : Exec A}
        → (succeeded p ≡ true → Returns m Q)
        → Returns n Q
        → Returns (if succeeded p then m else n) Q
    when_succeeded Q p h k = elim (Bool-cases (succeeded p)) [ inl e ↦ rw e (h e) | inr e ↦ rw e k ]

    set_max-Genuine :
        (c : GatewayCommand) (value : Option ℕ)
        → c.value ≡ value
        → Returns (set_max_command env executor (target_text c.target) value) (Genuine c set_max)
    unfolding set_max_command after_set_max failed_result
    set_max-Genuine c none h = Returns-raise _ _
    set_max-Genuine c (some value) h =
        let a = target_text c.target in
        Returns-then (Ran ("set-max" ∷ a ∷ env.number_text value ∷ [])) _ (run_process-Ran _ _)
          (λ p r.
            when_succeeded (Genuine c set_max) p
              (λ s. Returns-then (Ran ("get-live" ∷ a ∷ [])) _ (run_process-Ran _ _) (λ q l.
                Returns-value (Genuine c set_max) _ (
                  add_entry-All LiveRead a
                      (if_succeeded (succeeded q) (matched a (parse_get_live env q))
                        (summary env q))
                      []
                      (if_succeeded-Sound LiveRead a (succeeded q)
                        (matched a (parse_get_live env q)) (summary env q)
                        (λ s b e. live_matched a q l s b e))
                      tt,
                  inr (value, p, h, r, s),
                )))
              (Returns-value (Genuine c set_max) _ (tt, inl refl)))

    blackout-Genuine :
        (c : GatewayCommand) → Returns (blackout_command env executor c.target) (Genuine c blackout)
    unfolding blackout_command blackout_result failed_result
    blackout-Genuine c =
        Returns-then (Ran ("blackout" ∷ target_text c.target ∷ "--confirm-blackout" ∷ [])) _
          (run_process-Ran _ _)
          (λ p r.
            Returns-value (Genuine c blackout) _
              (elim (Bool-cases (succeeded p)) [ inl e ↦ inr (p, r, e) | inr e ↦ rw e (inl refl) ]))

    restore-Genuine :
        (c : GatewayCommand) → Returns (restore_command env executor) (Genuine c restore_blackout)
    unfolding restore_command restored_result failed_result
    restore-Genuine c =
        Returns-then (Ran ("restore-blackout" ∷ "latest" ∷ "--confirm-restore" ∷ [])) _
          (run_process-Ran _ _)
          (λ p r.
            when_succeeded (Genuine c restore_blackout) p
              (λ s.
                Returns-then (λ m. parse_reported_values env p ≡ ok m) _ (lift-Returns _)
                  (λ m k. Returns-value (Genuine c restore_blackout) _ (inr (p, r, s, k))))
              (Returns-value (Genuine c restore_blackout) _ (inl refl)))

    clock-Genuine :
        (c : GatewayCommand)
        → Returns (clock_command env executor c) (λ r. All LiveRead r.live_reported)
    unfolding clock_command clock_result
    clock-Genuine c = Returns-after _ _ (λ now.
        Returns-then (All IsGenuineClock) _ (write_clocks-Genuine c now _) (λ rs h.
          Returns-value (λ (r : ExecutionResult). All LiveRead r.live_reported) _ (clock-All rs h)))

    -- Every reading was read for the lamp it is reported for.
    pub action-Genuine :
        (action : Action) (c : GatewayCommand)
        → Returns (execute_action env executor action c) (Genuine c action)
    unfolding execute_action refresh_of read_daylight_of
    action-Genuine refresh_gateway_info c = Returns-value (Genuine c refresh_gateway_info) _ refl
    action-Genuine sync_clock c = clock-Genuine c
    action-Genuine set_clock c = clock-Genuine c
    action-Genuine read_daylight c =
        Returns-then (All IsGenuineDaylight) _ (read_daylight_nodes-Genuine _)
          (λ rs h. Returns-value (Genuine c read_daylight) _ (daylight_result-Genuine c rs h))
    action-Genuine refresh c =
        Returns-then (All IsGenuine) _ (refresh_nodes-Genuine _)
          (λ rs h. Returns-value (Genuine c refresh) _ (refresh_result-Genuine c rs h))
    action-Genuine set_max c = set_max-Genuine c c.value refl
    action-Genuine blackout c = blackout-Genuine c
    action-Genuine restore_blackout c = restore-Genuine c
