-- ===== src/Runtime/Blackout/Events.antt =====
-- That every event keeps the invariant of a blackout.
use sanlight_mesh_mqtt_gatew.Base.{
  ℕ, ◌≡◌, refl, ◌&&◌, ◌||◌, &&-split, true, false, not, Option, none, some, List, ◌∷◌, ltb,
  if◌then◌else◌, contains, Result, ok, err,
}
use sanlight_mesh_mqtt_gatew.Protocol.Opcode.{ValueError}
use sanlight_mesh_mqtt_gatew.Protocol.Brightness.{get_max_brightness_status_value}
use sanlight_mesh_mqtt_gatew.MaxBrightnessPolicy.{
  Received, Rejection, unicast_status_rejection_reason,
}
use sanlight_mesh_mqtt_gatew.MaxBrightnessPolicy.Accept.{unicast_status_rejection_reason_source}
use sanlight_mesh_mqtt_gatew.Runtime.{
  Command, Setup, Purpose, query, verification, blackout_preflight, restore_preflight,
  write_recorded, set_max_timer, get_max_timer, set_max_retry_timer, Transaction, is_finished,
  set_max_group_complete, get_max_unconfirmed, preflight_aborted, write_unverified,
}
use sanlight_mesh_mqtt_gatew.Runtime.Receive.{
  on_set_max_send_accepted, on_set_max_status, add_source, finish_or_retry_set_max, retry_set_max,
  on_get_max_send_accepted, retry_get_max, finish_unread, finish_or_retry_get_max, is_accepted,
  receive_set_max_status, on_decoded, receive_get_max_status, get_max_max_attempts, is_empty,
  reads_brightness, is_none,
}
use sanlight_mesh_mqtt_gatew.Runtime.System.{
  Event, step, set_max_accepted, set_max_timeout, get_max_accepted, get_max_timeout, set_max_retry,
  get_max_retry, send_failed, set_max_status, get_max_status,
}
use sanlight_mesh_mqtt_gatew.Runtime.Blackout.{Safe}
use sanlight_mesh_mqtt_gatew.Runtime.Blackout.Moves.{
  Safe-if, Safe-test, effect-Safe, finish-Safe, fail-Safe, not_finished, send_get-Safe, verify-Safe,
  send_max-Safe,
}
use sanlight_mesh_mqtt_gatew.Runtime.Blackout.Value.{schedule-Safe, status-Safe, first_false}

module _ {selected : List ℕ} (c : Setup) (is_blackout : c.command ≡ Command.blackout) where
  decoded-Safe :
      (t : Transaction) (source : ℕ) (r : Result ValueError ℕ)
      → Safe selected t
      → source ≡ t.current_brightness_destination
      → Safe selected (on_decoded c source r t)
  decoded-Safe t source (ok value) s e = status-Safe c is_blackout t source value s e
  decoded-Safe t source (err e') s e = s

  receive-Safe :
      (t : Transaction) (r : Received) (payload : List ℕ)
      → Safe selected t
      → Safe selected (receive_get_max_status c r payload t)
  unfolding receive_get_max_status
  receive-Safe t r payload s =
      let reason =
        unicast_status_rejection_reason r t.current_brightness_destination c.app_index
          c.sender_unicast c.sanlight_nodes in
      Safe-test (reads_brightness c.command && t.get_max_started && is_accepted reason) _ t
        (λ h.
          let a = accepted_none reason ((&&-split _ (is_accepted reason) h).1) in
          decoded-Safe t r.source (get_max_brightness_status_value payload) s (
            unicast_status_rejection_reason_source r t.current_brightness_destination c.app_index
              c.sender_unicast c.sanlight_nodes a))
        (λ h. s)
    where
      accepted_none : (o : Option Rejection) → is_accepted o ≡ true → o ≡ none
      accepted_none none h = refl
      accepted_none (some x) h = cc

  acknowledged-Safe :
      (t : Transaction) (source : ℕ)
      → Safe selected t
      → Safe selected (on_set_max_status c source t)
  unfolding on_set_max_status
  acknowledged-Safe t source s =
      let u = record t { set_max_status_sources = add_source source t.set_max_status_sources } in
      Safe-if (is_finished t) t _ s (
        Safe-if (contains c.sanlight_nodes t.current_brightness_destination) _ u (verify-Safe c u s)
          s)

  timeout-Safe :
      (t : Transaction) (g a : ℕ)
      → Safe selected t
      → Safe selected (finish_or_retry_set_max c g a t)
  unfolding finish_or_retry_set_max
  timeout-Safe t g a s = Safe-if _ t _ s (
      Safe-if (contains c.groups t.current_brightness_destination) _ _
        (finish-Safe (set_max_group_complete t.set_max_status_sources) 0 t (λ q h. cc) s)
        (Safe-if (not (is_empty t.set_max_status_sources)) _ _ (verify-Safe c t s) (
          Safe-if (ltb t.set_max_attempt t.set_max_max_attempts) _ _
            (effect-Safe set_max_retry_timer t tt s) (verify-Safe c t s))))

  unread-Safe :
      (t : Transaction) (q : Option Purpose) → Safe selected t → Safe selected (finish_unread q t)
  unfolding finish_unread
  unread-Safe t (some query) s = finish-Safe get_max_unconfirmed 3 t (λ q h. cc) s
  unread-Safe t (some blackout_preflight) s = finish-Safe preflight_aborted 3 t (λ q h. cc) s
  unread-Safe t (some restore_preflight) s = finish-Safe preflight_aborted 3 t (λ q h. cc) s
  unread-Safe t (some verification) s = finish-Safe write_unverified 3 t (λ q h. cc) s
  unread-Safe t none s = finish-Safe write_unverified 3 t (λ q h. cc) s

  -- Every event keeps the invariant.
  pub step-Safe : (t : Transaction) (e : Event) → Safe selected t → Safe selected (step c e t)
  unfolding step on_set_max_send_accepted retry_set_max on_get_max_send_accepted retry_get_max
      finish_or_retry_get_max receive_set_max_status
  step-Safe t (set_max_accepted g a) s =
      let u =
        if t.brightness_write_recorded
        then t
        else record t { brightness_write_recorded = true; log = write_recorded ∷ t.log } in
      Safe-if _ t _ s (
        effect-Safe (set_max_timer g a) u tt (
          Safe-if t.brightness_write_recorded t _ s
            (effect-Safe write_recorded (record t { brightness_write_recorded = true }) tt s)))
  step-Safe t (set_max_timeout g a) s = timeout-Safe t g a s
  step-Safe t (get_max_accepted g a) s = Safe-if _ t _ s (effect-Safe (get_max_timer g a) t tt s)
  step-Safe t (get_max_timeout g a) s = Safe-if _ t _ s (
      Safe-if (not (is_none t.get_max_status)) t _ s (
        Safe-if (ltb t.get_max_attempt get_max_max_attempts) _ _ (schedule-Safe t s)
          (unread-Safe t t.get_max_purpose s)))
  step-Safe t set_max_retry s =
      Safe-test (is_finished t || not (is_empty t.set_max_status_sources) || t.get_max_started) t _
        (λ h. s) (λ h. send_max-Safe c t s (not_finished t (first_false _ _ (first_false _ _ h))))
  step-Safe t get_max_retry s =
      Safe-if (is_finished t) t _ s
        (send_get-Safe c (record t { get_max_retry_pending = false; get_max_status = none }) s)
  step-Safe t send_failed s = fail-Safe t s
  step-Safe t (set_max_status r) s = Safe-if _ _ t (acknowledged-Safe t r.source s) s
  step-Safe t (get_max_status r payload) s = receive-Safe t r payload s
