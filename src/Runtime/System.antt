-- ===== src/Runtime/System.antt =====
-- The main loop of sanlight_mesh/bluez_runtime.py: the events that can come, in any order. A reply or
-- a timer can come with any generation and attempt, so every real order is among these.
use sanlight_mesh_mqtt_gatew.Base.{ℕ, List}
use sanlight_mesh_mqtt_gatew.MaxBrightnessPolicy.{Received}
use sanlight_mesh_mqtt_gatew.Runtime.{Setup, Transaction, fail}
use sanlight_mesh_mqtt_gatew.Runtime.Receive.{
  on_set_max_send_accepted, finish_or_retry_set_max, retry_set_max, on_get_max_send_accepted,
  finish_or_retry_get_max, retry_get_max, receive_set_max_status, receive_get_max_status,
}

pub data Event : Type 0 where
  set_max_accepted set_max_timeout get_max_accepted get_max_timeout : ℕ → ℕ → Event
  set_max_retry get_max_retry send_failed : Event
  set_max_status : Received → Event
  get_max_status : Received → List ℕ → Event

unfoldable pub step : Setup → Event → Transaction → Transaction
step c (set_max_accepted g a) t = on_set_max_send_accepted c g a t
step c (set_max_timeout g a) t = finish_or_retry_set_max c g a t
step c (get_max_accepted g a) t = on_get_max_send_accepted c g a t
step c (get_max_timeout g a) t = finish_or_retry_get_max c g a t
step c set_max_retry t = retry_set_max c t
step c get_max_retry t = retry_get_max c t
step c send_failed t = fail t
step c (set_max_status r) t = receive_set_max_status c r t
step c (get_max_status r payload) t = receive_get_max_status c r payload t

-- The states after a start.
pub data Reach (c : Setup) (s : Transaction) : Transaction → Type 0 where
  start : Reach c s s
  later : {t : Transaction} → Reach c s t → (e : Event) → Reach c s (step c e t)
