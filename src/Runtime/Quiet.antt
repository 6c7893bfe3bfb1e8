-- ===== src/Runtime/Quiet.antt =====
-- After the end nothing more is sent.
use sanlight_mesh_mqtt_gatew.Base.{ℕ, ◌≡◌, refl, Bool, true, false, Result, ok, err, if◌then◌else◌}
use sanlight_mesh_mqtt_gatew.Protocol.Brightness.{get_max_brightness_status_value}
use sanlight_mesh_mqtt_gatew.Runtime.{Setup, Transaction, is_finished, finish, fail}
use sanlight_mesh_mqtt_gatew.Runtime.Receive.{
  on_set_max_send_accepted, on_set_max_status, finish_or_retry_set_max, retry_set_max,
  on_get_max_send_accepted, on_get_max_status, finish_or_retry_get_max, retry_get_max,
  receive_set_max_status, receive_get_max_status, on_decoded,
}
use sanlight_mesh_mqtt_gatew.Runtime.System.{
  Event, step, set_max_accepted, set_max_timeout, get_max_accepted, get_max_timeout, set_max_retry,
  get_max_retry, send_failed, set_max_status, get_max_status,
}

-- What is sent, written and printed at the end is the same.
pub record IsQuiet (t u : Transaction) : Type 0 where
  pub same_log : u.log ≡ t.log
  pub same_end : u.finished ≡ t.finished
  pub same_targets : u.blackout_targets ≡ t.blackout_targets

pub IsQuiet-self : (t : Transaction) → IsQuiet t t
IsQuiet-self t = record { same_log = refl; same_end = refl; same_targets = refl }

IsQuiet-if :
    (b : Bool) (t u v : Transaction) → IsQuiet t u → IsQuiet t v → IsQuiet t (if b then u else v)
IsQuiet-if true t u v h k = h
IsQuiet-if false t u v h k = k

module _ (c : Setup) (t : Transaction) (h : is_finished t ≡ true) where
  set_max_status-IsQuiet : (source : ℕ) → IsQuiet t (on_set_max_status c source t)
  unfolding on_set_max_status
  set_max_status-IsQuiet source = rw h (IsQuiet-self t)

  get_max_status-IsQuiet : (source value : ℕ) → IsQuiet t (on_get_max_status c source value t)
  unfolding on_get_max_status
  get_max_status-IsQuiet source value = rw h (IsQuiet-self t)

  decoded-IsQuiet : (source : ℕ) (r : Result _ ℕ) → IsQuiet t (on_decoded c source r t)
  decoded-IsQuiet source (ok value) = get_max_status-IsQuiet source value
  decoded-IsQuiet source (err e) = record { same_log = refl; same_end = refl; same_targets = refl }

  -- Once the command has ended, no event sends, writes or reads anything, sets a timer, or changes
  -- what was printed at the end.
  pub step-IsQuiet : (e : Event) → IsQuiet t (step c e t)
  unfolding step on_set_max_send_accepted finish_or_retry_set_max retry_set_max
      on_get_max_send_accepted finish_or_retry_get_max retry_get_max fail finish
      receive_set_max_status receive_get_max_status
  step-IsQuiet (set_max_accepted g a) = rw h (IsQuiet-self t)
  step-IsQuiet (set_max_timeout g a) = rw h (IsQuiet-self t)
  step-IsQuiet (get_max_accepted g a) = rw h (IsQuiet-self t)
  step-IsQuiet (get_max_timeout g a) = rw h (IsQuiet-self t)
  step-IsQuiet set_max_retry = rw h (IsQuiet-self t)
  step-IsQuiet get_max_retry = rw h (IsQuiet-self t)
  step-IsQuiet send_failed = rw h (IsQuiet-self t)
  step-IsQuiet (set_max_status r) =
      IsQuiet-if _ t (on_set_max_status c r.source t) t (set_max_status-IsQuiet r.source)
        (IsQuiet-self t)
  step-IsQuiet (get_max_status r payload) =
      IsQuiet-if _ t _ t (decoded-IsQuiet r.source (get_max_brightness_status_value payload))
        (IsQuiet-self t)
