-- ===== src/Executor.antt =====
-- The command executor, sanlight_mesh/gateway_executor.py. Each command runs the program of
-- sanlight_mesh/bluez_runtime.py in processes, whose outputs are the environment's answers to what has
-- been run so far. Its children are Parse, the outputs; Errors, their classification; Read, Clock and
-- Execute, the commands; Genuine, Readings, Complete and Exclusive, the proofs.
pub mod Parse
pub mod Errors
pub mod Read
pub mod Clock
pub mod Execute
pub mod Exclusive
pub mod Readings
pub mod Genuine
pub mod Complete
use sanlight_mesh_mqtt_gatew.Base.{
  ℕ, ℤ, pos, negsuc, Bool, String, Option, none, some, List, ◌∷◌, ◌==◌, ◌||◌, true, false, ok, err,
}
use sanlight_mesh_mqtt_gatew.GatewayProtocol.Decode.{Loads}
use sanlight_mesh_mqtt_gatew.Protocol.Opcode.{ValueError}
use sanlight_mesh_mqtt_gatew.Stateful.{Run}

-- The regular expressions at the top of the file.
pub data Pattern : Type 0 where
  get_max_re get_live_re get_daylight_re sequence_re status_value_re node_value_re : Pattern
  final_value_re : Pattern

pub record ProcessResult : Type 0 where
  pub exit_code : ℤ
  pub stdout : String
  pub stderr : String

-- What was called: a process with its arguments and its limit of seconds, or a clock.
pub data Call : Type 0 where
  ran : List String → ℕ → Call
  monotonic_read local_clock_read : Call

pub data Fault : Type 0 where
  -- GatewayExecutionError
  timed_out unsupported_action : Fault
  -- what `int` and `json.loads` raise where it is not caught, and `assert`
  too_many_digits loads_failed no_argument : Fault

-- The calls so far are the state.
abbrev pub Exec : Type 0 → Type 0
Exec A = Run (List Call) Fault A

-- Python's library: `findall` are the groups of every match, `int_of` is `int` of the digits of a match,
-- `stripped_lines` are the lines of a text without white space around them, `number_text` is `str`;
-- `estimate_differs` compares the float `raw / 10` with a float in a text. Then the processes, `none` at
-- a timeout, and the clocks, in microseconds and in seconds of the day.
pub record Environment : Type 0 where
  pub findall : Pattern → String → List (List String)
  pub int_of : String → Option ℕ
  pub stripped_lines : String → List String
  pub number_text : ℕ → String
  pub exit_code_text : ℤ → String
  pub estimate_differs : ℕ → String → Bool
  pub loads : String → Loads
  pub fromhex : String → Option (List ℕ)
  pub utf8 : List ℕ → Option (List ℕ)
  pub parse_error_text : ValueError → String
  pub process : List Call → List String → ℕ → Option ProcessResult
  pub monotonic : List Call → ℕ
  pub local_seconds : List Call → ℕ

-- `node_addresses` is sorted, and `command_timeout_seconds` is a setting.
pub record Executor : Type 0 where
  pub node_addresses : List String
  pub command_timeout_seconds : ℕ

abbrev pub succeeded : ProcessResult → Bool
succeeded p = elim p.exit_code [ pos n ↦ n == 0 | negsuc n ↦ false ]

-- `exit_code in (3, 4)`
abbrev pub is_unconfirmed : ProcessResult → Bool
is_unconfirmed p = elim p.exit_code [ pos n ↦ n == 3 || n == 4 | negsuc n ↦ false ]

abbrev pub or_timed_out : Option ProcessResult → Exec ProcessResult
or_timed_out none = λ calls. (calls, err timed_out)
or_timed_out (some p) = λ calls. (calls, ok p)

module _ (env : Environment) where
  -- `_run`
  unfoldable pub run_process : List String → ℕ → Exec ProcessResult
  run_process arguments timeout =
      λ calls. or_timed_out (env.process calls arguments timeout) (ran arguments timeout ∷ calls)

  -- `time.monotonic()`
  unfoldable pub read_monotonic : Exec ℕ
  read_monotonic = λ calls. (monotonic_read ∷ calls, ok (env.monotonic calls))

  -- `_local_seconds_since_midnight`
  unfoldable pub read_local_clock : Exec ℕ
  read_local_clock = λ calls. (local_clock_read ∷ calls, ok (env.local_seconds calls))
