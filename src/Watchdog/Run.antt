-- ===== src/Watchdog/Run.antt =====
-- `run_watchdog` of sanlight_mesh/mesh_watchdog.py. The calls of services, clocks and files are logged
-- with their answers; the local variable `stopped_gateway` stands beside the log. Here are the calls
-- and the loops that wait; Probe has `run_watchdog`. The proofs are Waits, the end of the loops, and Guard,
-- Phases, Alone, Recovery, Measure, Ends and Safe, what every run keeps.
pub mod Probe
pub mod Guard
pub mod Phases
pub mod Alone
pub mod Recovery
pub mod Measure
pub mod Ends
pub mod Safe
pub mod Waits
use sanlight_mesh_mqtt_gatew.Base.{
  ℕ, zero, suc, ◌+◌, ◌*◌, ℤ, pos, negsuc, Bool, true, false, not, String, Option, none, some, List,
  [], ◌∷◌, ◌++◌, leb, ltb, ◌==◌, if◌then◌else◌, codes, Result, ok, err,
}
use sanlight_mesh_mqtt_gatew.Value.{
  Value, null, boolean, integer, float, text, array, object, Items, nil, cons, Fields, end, field,
  get, value_or,
}
use sanlight_mesh_mqtt_gatew.GatewayStore.Dict.{put}
use sanlight_mesh_mqtt_gatew.GatewayProtocol.{Raised, second, Stamp}
use sanlight_mesh_mqtt_gatew.Service.Report.{address_text}
use sanlight_mesh_mqtt_gatew.Stateful.{Run, ◌>>=◌, ◌>>◌, return, raise, finally}
use sanlight_mesh_mqtt_gatew.Watchdog.{
  WatchdogConfig, ConfigError, load_watchdog_config, ProbeAssessment, Outcome, response_observed,
  confirmed_tx_stall, hci_tx_observed, uart_counter_unavailable, inconclusive, assess_probe,
}
use sanlight_mesh_mqtt_gatew.Watchdog.Incident.{
  Stop, skipped, raised, as_mapping, parse_time, recovery_history, eligible_incident, sorted,
}

pub data Service : Type 0 where
  gateway_service mesh_service : Service

-- The processes that are run.
pub data Command : Type 0 where
  is_active : Service → Command
  stop_gateway start_gateway find_sender recover_mesh : Command
  get_live : String → Command

-- The exit code and the output; `TimeoutExpired`; or an `OSError`.
pub data Answer : Type 0 where
  completed : ℤ → String → Answer
  expired failed : Answer

pub data File : Type 0 where
  gateway_state watchdog_state : File

pub data Call : Type 0 where
  ran : Command → ℕ → Answer → Call
  read_file : File → Call
  wrote : Fields → Call
  uart_read : Option ℕ → Call
  lock_tried utc_read monotonic_read : Call
  slept : ℕ → Call

pub data Fault : Type 0 where
  bad_config : ConfigError → Fault
  timeout_expired os_error bad_state not_written bad_cdb : Fault
  raised_by_time : Raised → Fault
  out_of_fuel : Fault

pub record World : Type 0 where
  pub log : List Call
  pub stopped_gateway : Bool

-- Everything outside answers from the calls so far; times are in microseconds. `sanlight_nodes` are those
-- of the CDB, where it can be loaded.
pub record Environment : Type 0 where
  pub fromisoformat : List ℕ → Option Stamp
  pub isoformat : ℕ → String
  pub process : List Call → Command → ℕ → Answer
  pub document : List Call → File → Option Value
  pub can_write : List Call → Fields → Bool
  pub lock_is_free : List Call → Bool
  pub utc_now : List Call → ℕ
  pub monotonic : List Call → ℕ
  pub uart_tx : List Call → Option ℕ
  pub sanlight_nodes : List Call → Option (List ℕ)

abbrev pub Exec : Type 0 → Type 0
Exec A = Run World Fault A

abbrev pub has_exited_0 : ℤ → Bool
has_exited_0 (pos n) = n == 0
has_exited_0 (negsuc n) = false

abbrev pub log_call : Call → World → World
log_call c w = record w { log = c ∷ w.log }

-- What `_run` returns or raises.
abbrev pub answered : Answer → Result Fault (ℤ × String)
answered (completed code output) = ok (code, output)
answered expired = err timeout_expired
answered failed = err os_error

-- `dict(document) if isinstance(document, dict) else {}`
abbrev pub as_document : Option Value → Result Fault Fields
as_document none = err bad_state
as_document (some v) = elim (as_mapping v) [ none ↦ ok end | some fs ↦ ok fs ]

abbrev pub outcome_text : Outcome → String
outcome_text response_observed = "response-observed"
outcome_text confirmed_tx_stall = "confirmed-tx-stall"
outcome_text hci_tx_observed = "hci-tx-observed-no-lamp-response"
outcome_text uart_counter_unavailable = "uart-counter-unavailable"
outcome_text inconclusive = "inconclusive"

abbrev pub number_or_null : Option ℕ → Value
number_or_null none = null
number_or_null (some n) = integer (pos n)

-- `str` of a time that was parsed, which is a text.
abbrev pub text_of : Value → String
text_of (text s) = s
text_of null = ""
text_of (boolean b) = ""
text_of (integer n) = ""
text_of (float f) = ""
text_of (array xs) = ""
text_of (object fs) = ""

abbrev pub matches : Bool → Bool → Bool
matches true b = b
matches false b = not b

abbrev pub is_given : {A : Type 0} → Option A → Bool
is_given none = false
is_given (some a) = true

-- The half second between two questions, and the second between two readings.
abbrev pub half_second : ℕ
half_second = 500000

module _ (env : Environment) where
  unfoldable pub run_command : Command → ℕ → Exec (ℤ × String)
  run_command c timeout =
      λ w. let a = env.process w.log c timeout in (log_call (ran c timeout a) w, answered a)

  unfoldable pub read_monotonic : Exec ℕ
  read_monotonic = λ w. (log_call monotonic_read w, ok (env.monotonic w.log))

  unfoldable pub utc_now : Exec ℕ
  utc_now = λ w. (log_call utc_read w, ok (env.utc_now w.log))

  unfoldable pub sleep : ℕ → Exec (Unit {0})
  sleep n = λ w. (log_call (slept n) w, ok tt)

  -- `_read_document`
  unfoldable pub read_document : File → Exec Fields
  read_document f = λ w. (log_call (read_file f) w, as_document (env.document w.log f))

  -- `_write_document`
  unfoldable pub write_document : Fields → Exec (Unit {0})
  write_document d =
      λ w. if env.can_write w.log d then (log_call (wrote d) w, ok tt) else (w, err not_written)

  unfoldable pub read_uart_tx : Exec (Option ℕ)
  read_uart_tx = λ w. let n = env.uart_tx w.log in (log_call (uart_read n) w, ok n)

  unfoldable pub set_stopped : Bool → Exec (Unit {0})
  set_stopped b = λ w. (record w { stopped_gateway = b }, ok tt)

  unfoldable pub get_stopped : Exec Bool
  get_stopped = λ w. (w, ok w.stopped_gateway)

  -- `_service_active`
  unfoldable pub service_active : Service → Exec Bool
  service_active s = do result ← run_command (is_active s) 10; return (has_exited_0 result.0)

  abbrev pub give_or_wait : {A : Type 0} → ℕ → Option A → Exec (Option A) → Exec (Option A)
  give_or_wait pause (some a) again = return (some a)
  give_or_wait pause none again = sleep pause >> again

  abbrev pub round : {A : Type 0} → Bool → ℕ → Exec (Option A) → Exec (Option A) → Exec (Option A)
  round false pause question again = return none
  round true pause question again = question >>= λ answer. give_or_wait pause answer again

  -- A loop until `deadline`, on fuel: at most one round more than there are pauses before it.
  unfoldable pub poll : {A : Type 0} → ℕ → ℕ → ℕ → Exec (Option A) → Exec (Option A)
  poll zero deadline pause question = raise out_of_fuel
  poll (suc fuel) deadline pause question = read_monotonic >>= λ now.
      round (ltb now deadline) pause question (poll fuel deadline pause question)

  -- A loop for some seconds, with `rounds` pauses in each.
  unfoldable pub poll_for : {A : Type 0} → ℕ → ℕ → ℕ → Exec (Option A) → Exec (Option A)
  poll_for seconds rounds pause question = do
    start ← read_monotonic
    poll (suc (seconds * rounds)) (start + seconds * second) pause question

  abbrev pub when : Bool → Option (Unit {0})
  when true = some tt
  when false = none

  unfoldable pub is_in_state : Service → Bool → Exec (Option (Unit {0}))
  is_in_state s active = service_active s >>= λ a. return (when (matches active a))

  abbrev pub or_ask : Service → Bool → Option (Unit {0}) → Exec Bool
  or_ask s active (some u) = return true
  or_ask s active none = service_active s >>= λ a. return (matches active a)

  -- `_wait_service_state`
  unfoldable pub wait_service_state : Service → Bool → ℕ → Exec Bool
  wait_service_state s active seconds =
      poll_for seconds 2 half_second (is_in_state s active) >>= or_ask s active

  unfoldable pub sender_is_gone : Exec (Option (Unit {0}))
  sender_is_gone = do
    result ← run_command find_sender 5
    return (when (not (has_exited_0 result.0)))

  -- `_wait_sender_exit`
  unfoldable pub wait_sender_exit : Exec Bool
  wait_sender_exit = poll_for 20 2 half_second sender_is_gone >>= λ a. return (is_given a)
