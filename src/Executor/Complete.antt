-- ===== src/Executor/Complete.antt =====
-- What a result of sanlight_mesh/gateway_executor.py reports: every lamp the command was for when it is a
-- success, and only what was read.
use sanlight_mesh_mqtt_gatew.Base.{ℕ, ◌≡◌, ◌⊎◌, false, String, some, List, [], ◌∷◌, All}
use sanlight_mesh_mqtt_gatew.GatewayProtocol.{
  Action, set_max, refresh, read_daylight, blackout, restore_blackout, sync_clock, set_clock,
  refresh_gateway_info, GatewayCommand,
}
use sanlight_mesh_mqtt_gatew.Service.{ExecutionResult}
use sanlight_mesh_mqtt_gatew.Service.Report.{target_text}
use sanlight_mesh_mqtt_gatew.Service.Worker.Reported.{keys}
use sanlight_mesh_mqtt_gatew.Executor.{Executor}
use sanlight_mesh_mqtt_gatew.Executor.Read.{
  refresh as refresh_of, read_daylight as read_daylight_of,
}
use sanlight_mesh_mqtt_gatew.Executor.Execute.{all_off}
use sanlight_mesh_mqtt_gatew.Executor.Genuine.{Genuine}
use sanlight_mesh_mqtt_gatew.Executor.Readings.{IsParsed}

-- What is verified of each command's targets.
abbrev pub Success : List String → GatewayCommand → ExecutionResult → Action → Type 0
Success targets c r refresh = (keys r.reported ≡ targets) × (keys r.live_reported ≡ targets)
Success targets c r read_daylight =
    (keys r.daylight_reported ≡ targets) × All IsParsed r.daylight_reported
Success targets c r set_max =
    (value : ℕ) × (c.value ≡ some value) × (r.reported ≡ (target_text c.target, value) ∷ [])
Success targets c r blackout = r.reported ≡ all_off targets
Success targets c r restore_blackout = r.live_reported ≡ []
Success targets c r sync_clock = keys r.live_reported ≡ targets
Success targets c r set_clock = keys r.live_reported ≡ targets
Success targets c r refresh_gateway_info = r.reported ≡ []

abbrev pub Complete : List String → GatewayCommand → Action → ExecutionResult → Type 0
Complete targets c action r = (r.is_ok ≡ false) ⊎ Success targets c r action
