-- ===== src/Runtime/Stale.antt =====
-- What `_cancel_get_max_transaction` of sanlight_mesh/bluez_runtime.py does to timers that are still
-- to come.
use sanlight_mesh_mqtt_gatew.Base.{
  contains, ℕ, ◌+◌, ◌≡◌, refl, ap, Bool, true, false, not, ◌||◌, ◌==◌, none, some, ◌∷◌, arith,
}
use sanlight_mesh_mqtt_gatew.Runtime.{
  Setup, Purpose, Transaction, read_sent, has_finished, is_finished, validate_destination,
  cancel_get_max_transaction,
}
use sanlight_mesh_mqtt_gatew.Runtime.Send.{start_get_max_readback, send_get_max_brightness}
use sanlight_mesh_mqtt_gatew.Runtime.Receive.{
  finish_or_retry_get_max, get_max_max_attempts, retry_get_max,
}

new_generation : (n : ℕ) → not (n == n + 1) ≡ true
new_generation n = ground arith

or_true : (a : Bool) → (a || true) ≡ true
or_true true = refl
or_true false = refl

-- The next readback, after one was cancelled.
abbrev pub next_readback : Setup → Purpose → Transaction → Transaction
next_readback c purpose t = start_get_max_readback c purpose (cancel_get_max_transaction t)

-- What the start of a readback and its first query change.
abbrev started : Purpose → Transaction → Transaction
started purpose t = record (cancel_get_max_transaction t) {
  get_max_generation = t.get_max_generation + 1 + 1;
  get_max_started = true;
  get_max_purpose = some purpose;
  get_max_attempt = 1;
  get_max_malformed_status_seen = false;
  log = read_sent (t.get_max_generation + 1 + 1) 1 t.current_brightness_destination ∷ t.log;
}

next_readback-eq :
    (c : Setup) (purpose : Purpose) (t : Transaction)
    → is_finished t ≡ false
    → c.sender_node ≡ true
    → validate_destination c t.current_brightness_destination ≡ true
    → contains c.sanlight_nodes t.current_brightness_destination ≡ true
    → next_readback c purpose t ≡ started purpose t
unfolding cancel_get_max_transaction send_get_max_brightness start_get_max_readback
next_readback-eq c purpose t e n v k = rw (e, v, n, k) refl

-- After a readback is cancelled, a timeout of it does nothing. But when the next readback of a lamp has
-- started, a retry of the old one that comes then sends the second query of the next readback, right
-- after the first, and no attempt is left of it.
pub retry_get_max-cancelled :
    (c : Setup) (purpose : Purpose) (t : Transaction)
    → t.finished ≡ none
    → c.sender_node ≡ true
    → validate_destination c t.current_brightness_destination ≡ true
    → contains c.sanlight_nodes t.current_brightness_destination ≡ true
    → ((attempt : ℕ)
        → finish_or_retry_get_max c t.get_max_generation attempt (cancel_get_max_transaction t)
          ≡ cancel_get_max_transaction t)
      × ((retry_get_max c (next_readback c purpose t)).log
          ≡ read_sent (t.get_max_generation + 1 + 1) 2 t.current_brightness_destination
            ∷ read_sent (t.get_max_generation + 1 + 1) 1 t.current_brightness_destination
            ∷ t.log)
      × ((retry_get_max c (next_readback c purpose t)).get_max_attempt ≡ get_max_max_attempts)
unfolding finish_or_retry_get_max cancel_get_max_transaction retry_get_max send_get_max_brightness
retry_get_max-cancelled c purpose t h n v k =
    let e : is_finished t ≡ false = ap has_finished h in
    let next = next_readback-eq c purpose t e n v k in
    (λ attempt. rw (e, new_generation t.get_max_generation), rw (next, e, v, n), rw (next, e, v, n))
