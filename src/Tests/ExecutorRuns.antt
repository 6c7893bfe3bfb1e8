-- ===== src/Tests/ExecutorRuns.antt =====
-- Tests of the model of sanlight_mesh/gateway_executor.py: one lamp, whose processes exit with 0.
use sanlight_mesh_mqtt_gatew.Base.{
  pos, Result, Bool, true, false, ◌&&◌, ◌==◌, length, ◌≡◌, refl, ok, err, String, none, some, List,
  [], ◌∷◌, str_eq, if◌then◌else◌,
}
use sanlight_mesh_mqtt_gatew.GatewayProtocol.{GatewayCommand, refresh, all_nodes}
use sanlight_mesh_mqtt_gatew.GatewayProtocol.Decode.{json_error}
use sanlight_mesh_mqtt_gatew.Service.{ExecutionResult}
use sanlight_mesh_mqtt_gatew.Stateful.Rules.{Returns}
use sanlight_mesh_mqtt_gatew.Executor.{
  Pattern, get_max_re, get_live_re, get_daylight_re, sequence_re, status_value_re, node_value_re,
  final_value_re, Environment, Executor, Call, Fault,
}
use sanlight_mesh_mqtt_gatew.Executor.Execute.{execute}
use sanlight_mesh_mqtt_gatew.Executor.Exclusive.{Exclusive, execute-Exclusive}
use sanlight_mesh_mqtt_gatew.Executor.Genuine.{Genuine}
use sanlight_mesh_mqtt_gatew.Executor.Complete.{Complete}

-- The matches: every lamp says that it is set to 40 %, and how bright it is at midnight.
abbrev matches : Pattern → String → List (List String)
matches get_max_re text = ("00C3" ∷ "40" ∷ []) ∷ []
matches get_live_re text = ("00C3" ∷ "0" ∷ "00:00:00.000" ∷ "40" ∷ "40.0" ∷ []) ∷ []
matches get_daylight_re text = []
matches sequence_re text = ("7" ∷ "40" ∷ []) ∷ []
matches status_value_re text = []
matches node_value_re text = []
matches final_value_re text = []

abbrev environment : Environment
environment = record {
  findall = matches;
  int_of = λ s. if str_eq s "40" then some 40 else if str_eq s "0" then some 0 else some 7;
  stripped_lines = λ s. "no answer" ∷ [];
  number_text = λ n. "40";
  exit_code_text = λ n. "0";
  estimate_differs = λ n s. false;
  loads = λ s. json_error;
  fromhex = λ s. none;
  utf8 = λ bytes. some bytes;
  parse_error_text = λ e. "";
  process =
      λ calls arguments limit. some (record { exit_code = pos 0; stdout = "out"; stderr = "" });
  monotonic = λ calls. 0;
  local_seconds = λ calls. 0;
}

abbrev executor : Executor
executor = record { node_addresses = "00C3" ∷ []; command_timeout_seconds = 60 }

abbrev command : GatewayCommand
command = record {
  command_id = "a-1";
  action = refresh;
  target = all_nodes;
  created_at = 0;
  expires_at = 30;
  value = none;
  seconds_since_midnight = none;
  confirmed = false;
}

execute-Exclusive_example : Returns (execute environment executor command) (Exclusive refresh)
execute-Exclusive_example = execute-Exclusive environment executor command

-- The refresh is a success, with both readings.
abbrev is_refreshed : List Call × Result Fault ExecutionResult → Bool
is_refreshed (calls, ok r) = r.is_ok && (length r.reported == 1 && length r.live_reported == 1)
is_refreshed (calls, err e) = false

refresh_succeeds : is_refreshed (execute environment executor command []) ≡ true
unfolding execute sanlight_mesh_mqtt_gatew.Executor.Execute.execute_action
    sanlight_mesh_mqtt_gatew.Executor.Read.refresh sanlight_mesh_mqtt_gatew.Stateful.◌>>=◌
    sanlight_mesh_mqtt_gatew.Executor.Read.refresh_nodes
    sanlight_mesh_mqtt_gatew.Executor.Read.refresh_node
    sanlight_mesh_mqtt_gatew.Executor.run_process sanlight_mesh_mqtt_gatew.Stateful.lift
    sanlight_mesh_mqtt_gatew.Executor.Parse.parse_get_max sanlight_mesh_mqtt_gatew.Stateful.return
    sanlight_mesh_mqtt_gatew.Executor.Read.refresh_result
    sanlight_mesh_mqtt_gatew.Executor.Read.errors_of
    sanlight_mesh_mqtt_gatew.Executor.Parse.parse_get_live
    sanlight_mesh_mqtt_gatew.Protocol.Live.live_status
    sanlight_mesh_mqtt_gatew.Executor.Parse.has_clock
    sanlight_mesh_mqtt_gatew.Protocol.Clock.format_milliseconds_as_clock
    sanlight_mesh_mqtt_gatew.Executor.Read.reported_of
    sanlight_mesh_mqtt_gatew.Executor.Read.live_of
refresh_succeeds = refl
