-- ===== src/Service/Accepted.antt =====
-- What `on_message` of sanlight_mesh/gateway_service.py puts into the queue.
use sanlight_mesh_mqtt_gatew.Base.{
  ◌≡◌, refl, ◌∙◌, ◌⊎◌, inl, inr, Bool, true, false, Bool-cases, String, Option, none, some, [], ◌∷◌,
  ◌++◌, Result, ok, err, if◌then◌else◌, str_eq,
}
use sanlight_mesh_mqtt_gatew.Value.{Fields}
use sanlight_mesh_mqtt_gatew.GatewayProtocol.{
  GatewayCommand, Raised, protocol, retained_command, type_error, overflow_error, loads_error,
}
use sanlight_mesh_mqtt_gatew.GatewayProtocol.Decode.{decode_command}
use sanlight_mesh_mqtt_gatew.CommandQueue.{CommandQueue, contains, put, is_full, add_id}
use sanlight_mesh_mqtt_gatew.GatewayStore.{GatewayStore, get_result, get_inflight}
use sanlight_mesh_mqtt_gatew.Service.{
  Config, IncomingMessage, Effect, clock_read, Fault, raised, queue_full, save_error, publish_error,
  execution_error, out_of_range, World, Environment,
}
use sanlight_mesh_mqtt_gatew.Service.Run.{
  then_run, ◌>>=◌, return, raise, lift, handled, try, read_clock, publish,
}
use sanlight_mesh_mqtt_gatew.Service.Report.{publish_result, as_fault}
use sanlight_mesh_mqtt_gatew.Service.Message.{
  known_target, enqueue, deliver, check_target, decode_and_deliver, accept, reject, on_error,
  on_message,
}

-- The state and the queue after a call that does not accept a command.
abbrev pub Untouched : World → World → Type 0
Untouched w v = (v.store ≡ w.store) × (v.queue ≡ w.queue)

-- The command is new, and it goes to the end of the queue.
pub record Enqueued (c : GatewayCommand) (store : GatewayStore) (queue : CommandQueue) (v : World)
    : Type 0 where
  pub no_result : get_result store c.command_id ≡ none
  pub not_inflight : get_inflight store c.command_id ≡ none
  pub not_pending : contains queue c.command_id ≡ false
  pub has_room : is_full queue ≡ false
  pub same_store : v.store ≡ store
  pub appended : v.queue.items ≡ queue.items ++ c ∷ []
  pub now_pending : v.queue.pending_ids ≡ add_id c.command_id queue.pending_ids

module _ (env : Environment) (config : Config) (message : IncomingMessage) where
  -- The command that the message holds, at the time of the world `w`.
  pub record Accepted (w v : World) : Type 0 where
    pub command : GatewayCommand
    pub for_gateway : str_eq message.topic config.command_topic ≡ true
    pub not_retained : message.retain ≡ false
    pub decoded :
        decode_command env.fromisoformat env.loads message.payload (env.utc_now w.log) ≡ ok command
    pub known : known_target config.nodes command.target ≡ true
    pub enqueued : Enqueued command w.store w.queue v

publish-Untouched : (env : Environment) (e : Effect) (w : World) → Untouched w (publish env e w).0
unfolding publish
publish-Untouched env e w = elim (Bool-cases (env.can_publish w.log)) [
  | inl h ↦ rw h (refl, refl)
  | inr h ↦ rw h (refl, refl)
]

reject-Untouched :
    (env : Environment) (i status text : String) (w : World)
    → Untouched w (reject env i status text w).0
unfolding reject publish_result read_clock ◌>>=◌
reject-Untouched env i status text w = publish-Untouched env _ _

on_error-Untouched :
    (env : Environment) (i : String) (e : Fault) (w : World) → Untouched w (on_error env i e w).0
unfolding on_error raise
on_error-Untouched env i queue_full w = reject-Untouched env i _ _ w
on_error-Untouched env i (raised (protocol e)) w = reject-Untouched env i _ _ w
on_error-Untouched env i (raised type_error) w = (refl, refl)
on_error-Untouched env i (raised overflow_error) w = (refl, refl)
on_error-Untouched env i (raised loads_error) w = (refl, refl)
on_error-Untouched env i save_error w = (refl, refl)
on_error-Untouched env i publish_error w = (refl, refl)
on_error-Untouched env i execution_error w = (refl, refl)
on_error-Untouched env i out_of_range w = (refl, refl)

-- After the body of `try`: the command was put into the queue and nothing was raised, or nothing
-- changed.
abbrev After : GatewayCommand → World → World × Result Fault (Unit {0}) → Type 0
After c w p = (Enqueued c w.store w.queue p.0 × (p.1 ≡ ok tt)) ⊎ Untouched w p.0

enqueue-After :
    (c : GatewayCommand) (w : World)
    → get_result w.store c.command_id ≡ none
    → get_inflight w.store c.command_id ≡ none
    → After c w (enqueue c w)
unfolding enqueue contains put raise
enqueue-After c w r i = elim (Bool-cases (contains w.queue c.command_id)) [
  | inl h ↦ rw h (inr (refl, refl))
  | inr h ↦ elim (Bool-cases (is_full w.queue)) [
    | inl f ↦ rw (h, f) (inr (refl, refl))
    | inr f ↦
        rw (h, f)
          (inl (
            record {
              no_result = r;
              not_inflight = i;
              not_pending = h;
              has_room = f;
              same_store = refl;
              appended = refl;
              now_pending = refl;
            },
            refl,
          ))
  ]
]

module _ (env : Environment) where
  deliver-After :
      (c : GatewayCommand) (w : World) (result inflight : Option Fields)
      → get_result w.store c.command_id ≡ result
      → get_inflight w.store c.command_id ≡ inflight
      → After c w (deliver env c result inflight w)
  unfolding deliver publish_result read_clock ◌>>=◌
  deliver-After c w (some r) inflight hr hi = inr (publish-Untouched env _ w)
  deliver-After c w none (some i) hr hi = inr (publish-Untouched env _ _)
  deliver-After c w none none hr hi = enqueue-After c w hr hi

  check_target-After :
      (config : Config) (c : GatewayCommand) (w : World)
      → ((known_target config.nodes c.target ≡ true) × After c w (check_target env config c w))
        ⊎ Untouched w (check_target env config c w).0
  unfolding check_target
  check_target-After config c w = elim (Bool-cases (known_target config.nodes c.target)) [
    | inl k ↦ rw k (inl (refl, deliver-After c w _ _ refl refl))
    | inr k ↦ rw k (inr (refl, refl))
  ]

Untouched-after :
    (env : Environment) (i : String) (w : World) (p : World × Result Fault (Unit {0}))
    → Untouched w p.0
    → Untouched w (handled (on_error env i) p).0
Untouched-after env i w (v, ok u) h = h
Untouched-after env i w (v, err e) (s, q) =
    let (s₁, q₁) = on_error-Untouched env i e v in (s₁ ∙ s, q₁ ∙ q)

module _ (env : Environment) (config : Config) (message : IncomingMessage) where
  -- The outcome of the body, before the `except` clauses.
  abbrev Accepts : World → World × Result Fault (Unit {0}) → Type 0
  Accepts w p =
      ((c : GatewayCommand) × (decode_command env.fromisoformat env.loads message.payload
            (env.utc_now w.log)
          ≡ ok c)
        × (known_target config.nodes c.target ≡ true)
        × Enqueued c w.store w.queue p.0
        × (p.1 ≡ ok tt))
      ⊎ Untouched w p.0

  checked :
      (c : GatewayCommand) (w : World)
      → decode_command env.fromisoformat env.loads message.payload (env.utc_now w.log) ≡ ok c
      → Accepts w (check_target env config c (record w { log = clock_read ∷ w.log }))
  checked c w d = elim (check_target-After env config c (record w { log = clock_read ∷ w.log })) [
    | inl (k, inl (e, o)) ↦ inl (c, d, k, e, o)
    | inl (k, inr u) ↦ inr u
    | inr u ↦ inr u
  ]

  decoded-Accepts :
      (r : Result Raised GatewayCommand) (w : World)
      → decode_command env.fromisoformat env.loads message.payload (env.utc_now w.log) ≡ r
      → Accepts w
          (then_run (check_target env config) (record w { log = clock_read ∷ w.log }, as_fault r))
  decoded-Accepts (ok c) w d = checked c w d
  decoded-Accepts (err e) w d = inr (refl, refl)

  decode_and_deliver-Accepts : (w : World) → Accepts w (decode_and_deliver env config message w)
  unfolding decode_and_deliver ◌>>=◌ read_clock lift
  decode_and_deliver-Accepts w = decoded-Accepts _ w refl

  Accepted-after :
      (i : String) (w : World) (p : World × Result Fault (Unit {0}))
      → str_eq message.topic config.command_topic ≡ true
      → message.retain ≡ false
      → Accepts w p
      → Accepted env config message w (handled (on_error env i) p).0
        ⊎ Untouched w (handled (on_error env i) p).0
  Accepted-after i w p t n (inr u) = inr (Untouched-after env i w p u)
  Accepted-after i w (v, ok u) t n (inl (c, d, k, e, o)) = inl (record {
    command = c;
    for_gateway = t;
    not_retained = n;
    decoded = d;
    known = k;
    enqueued = e;
  })
  Accepted-after i w (v, err f) t n (inl (c, d, k, e, o)) = cc

  unless_retained :
      (i : String) (w : World) (retain : Bool)
      → str_eq message.topic config.command_topic ≡ true
      → message.retain ≡ retain
      → let p =
          (if retain
              then raise (raised (protocol retained_command))
              else decode_and_deliver env config message)
            w in
        Accepted env config message w (handled (on_error env i) p).0
        ⊎ Untouched w (handled (on_error env i) p).0
  unfolding raise
  unless_retained i w true t n = inr (on_error-Untouched env i _ w)
  unless_retained i w false t n = Accepted-after i w _ t n (decode_and_deliver-Accepts w)

  -- A message either leaves the store and the queue as they were, or it puts one command at the end of
  -- the queue: the one that it holds, when it came on the command topic and was not retained, for a
  -- known target, and with an identifier that has no stored result, is not in flight and is not pending.
  -- So a message whose command has a stored result, is in flight or is pending queues nothing.
  pub on_message-Accepted :
      (fresh : String) (w : World)
      → Accepted env config message w (on_message env config fresh message w).0
        ⊎ Untouched w (on_message env config fresh message w).0
  unfolding on_message try accept return
  on_message-Accepted fresh w = elim (Bool-cases (str_eq message.topic config.command_topic)) [
    | inr t ↦ rw t (inr (refl, refl))
    | inl t ↦ rw t (unless_retained _ w message.retain t refl)
  ]
