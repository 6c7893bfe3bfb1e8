-- ===== src/Watchdog.antt =====
-- The watchdog of sanlight_mesh/mesh_watchdog.py: its settings, what it concludes from a probe, and
-- which incidents it acts on. Its children are Incident, the test of an incident, Run, the function
-- `run_watchdog`, and the proofs.
pub mod Incident
pub mod Settings
pub mod Recoveries
pub mod Safe
pub mod Run
use sanlight_mesh_mqtt_gatew.Base.{
  ℕ, ◌-◌, Bool, true, false, not, ◌&&◌, ◌||◌, String, Option, none, some, List, [], ◌∷◌, leb, ltb,
  ◌==◌, if◌then◌else◌, codes, Result, ok, err, ◌>>=◌, ◌>>◌, require, pos,
}
use sanlight_mesh_mqtt_gatew.Value.{
  Value, null, boolean, integer, float, text, array, object, Fields, end, field, get, value_or,
  checked_int,
}
use sanlight_mesh_mqtt_gatew.GatewayProtocol.Decode.{member}

pub record WatchdogConfig : Type 0 where
  pub enabled : Bool
  pub incident_max_age_seconds : ℕ
  pub recent_success_seconds : ℕ
  pub probe_timeout_seconds : ℕ
  pub probe_cooldown_seconds : ℕ
  pub recovery_cooldown_seconds : ℕ
  pub recovery_window_seconds : ℕ
  pub max_recoveries_in_window : ℕ
  pub verification_timeout_seconds : ℕ

-- The messages of `ValueError`, with the setting that they name.
pub data ConfigError : Type 0 where
  not_a_table unknown_setting : ConfigError
  not_bool not_int out_of_range : String → ConfigError

unfoldable pub strict_bool : Fields → String → Bool → Result ConfigError Bool
strict_bool table key default = elim (value_or (get table key) (boolean default)) [
  | boolean b ↦ ok b
  | null ↦ err (not_bool key)
  | integer n ↦ err (not_bool key)
  | float f ↦ err (not_bool key)
  | text s ↦ err (not_bool key)
  | array xs ↦ err (not_bool key)
  | object fs ↦ err (not_bool key)
]

unfoldable pub strict_int : Fields → String → ℕ → ℕ → ℕ → Result ConfigError ℕ
strict_int table key default minimum maximum =
    checked_int (value_or (get table key) (integer (pos default))) minimum maximum (not_int key)
      (out_of_range key)

abbrev allowed : List String
allowed =
    "enabled" ∷ "incident_max_age_seconds" ∷ "recent_success_seconds" ∷ "probe_timeout_seconds"
    ∷ "probe_cooldown_seconds" ∷ "recovery_cooldown_seconds" ∷ "recovery_window_seconds"
    ∷ "max_recoveries_in_window" ∷ "verification_timeout_seconds" ∷ []

unfoldable pub only_allowed : Fields → Bool
only_allowed end = true
only_allowed (field k v fs) = member k allowed && only_allowed fs

-- `load_watchdog_config` on the table `[watchdog]`.
unfoldable pub table_config : Fields → Result ConfigError WatchdogConfig
table_config raw = do
  require (only_allowed raw) unknown_setting
  enabled ← strict_bool raw "enabled" true
  incident_max_age ← strict_int raw "incident_max_age_seconds" 3600 60 86400
  recent_success ← strict_int raw "recent_success_seconds" 86400 300 604800
  probe_timeout ← strict_int raw "probe_timeout_seconds" 50 20 180
  probe_cooldown ← strict_int raw "probe_cooldown_seconds" 3600 60 86400
  recovery_cooldown ← strict_int raw "recovery_cooldown_seconds" 1800 60 86400
  recovery_window ← strict_int raw "recovery_window_seconds" 21600 3600 86400
  max_recoveries ← strict_int raw "max_recoveries_in_window" 2 1 20
  verification_timeout ← strict_int raw "verification_timeout_seconds" 60 20 180
  ok (record {
    enabled = enabled;
    incident_max_age_seconds = incident_max_age;
    recent_success_seconds = recent_success;
    probe_timeout_seconds = probe_timeout;
    probe_cooldown_seconds = probe_cooldown;
    recovery_cooldown_seconds = recovery_cooldown;
    recovery_window_seconds = recovery_window;
    max_recoveries_in_window = max_recoveries;
    verification_timeout_seconds = verification_timeout;
  })

-- `if not isinstance(raw, dict): raise`
abbrev pub as_table : Value → Result ConfigError Fields
as_table (object raw) = ok raw
as_table null = err not_a_table
as_table (boolean b) = err not_a_table
as_table (integer n) = err not_a_table
as_table (float f) = err not_a_table
as_table (text s) = err not_a_table
as_table (array xs) = err not_a_table

-- `load_watchdog_config` on the document that the TOML reader returns; a TOML date or time, which a
-- JSON value cannot be, is refused where a text is.
unfoldable pub load_watchdog_config : Fields → Result ConfigError WatchdogConfig
load_watchdog_config root = as_table (value_or (get root "watchdog") (object end)) >>= table_config

pub data Outcome : Type 0 where
  response_observed confirmed_tx_stall hci_tx_observed : Outcome
  uart_counter_unavailable inconclusive : Outcome

pub record ProbeAssessment : Type 0 where
  pub outcome : Outcome
  pub confirmed_stall : Bool
  pub transmission_accepted : Bool
  pub response_observed : Bool
  pub no_response_observed : Bool
  pub uart_tx_before : Option ℕ
  pub uart_tx_after : Option ℕ
  pub uart_tx_delta : Option ℕ

abbrev pub begins_with : List ℕ → List ℕ → Bool
begins_with [] hay = true
begins_with (x ∷ xs) [] = false
begins_with (x ∷ xs) (y ∷ ys) = x == y && begins_with xs ys

-- `needle in hay` of two texts.
unfoldable pub occurs : List ℕ → List ℕ → Bool
occurs needle [] = begins_with needle []
occurs needle (y ∷ ys) = begins_with needle (y ∷ ys) || occurs needle ys

abbrev pub accepted_marker : List ℕ
accepted_marker = codes "accepted for Mesh transmission"

abbrev pub response_marker : List ℕ
response_marker = codes "GET-LIVE COMPLETE. Node 0x"

abbrev pub no_response_marker : List ℕ
no_response_marker = codes "GET-LIVE COMPLETE. No SANlight 0x0D status was observed"

-- What the counter has gone up by, unless it is unknown or has gone back.
unfoldable pub tx_delta : Option ℕ → Option ℕ → Option ℕ
tx_delta none after = none
tx_delta (some b) none = none
tx_delta (some b) (some a) = if leb b a then some (a - b) else none

abbrev pub is_zero : Option ℕ → Bool
is_zero none = false
is_zero (some n) = n == 0

abbrev pub is_positive : Option ℕ → Bool
is_positive none = false
is_positive (some n) = ltb 0 n

abbrev pub is_none : Option ℕ → Bool
is_none none = true
is_none (some n) = false

unfoldable pub assess_probe : List ℕ → Option ℕ → Option ℕ → ProbeAssessment
assess_probe output tx_before tx_after =
    let accepted = occurs accepted_marker output in
    let response = occurs response_marker output && occurs (codes "reports") output in
    let no_response = occurs no_response_marker output in
    let delta = tx_delta tx_before tx_after in
    let confirmed = accepted && no_response && not response && is_zero delta in
    record {
      outcome =
          if response
          then response_observed
          else if confirmed
          then confirmed_tx_stall
          else if accepted && no_response && is_positive delta
          then hci_tx_observed
          else if is_none tx_before || is_none tx_after
          then uart_counter_unavailable
          else inconclusive;
      confirmed_stall = confirmed;
      transmission_accepted = accepted;
      response_observed = response;
      no_response_observed = no_response;
      uart_tx_before = tx_before;
      uart_tx_after = tx_after;
      uart_tx_delta = delta;
    }
