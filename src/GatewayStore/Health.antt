-- ===== src/GatewayStore/Health.antt =====
-- The health of the mesh that sanlight_mesh/gateway_store.py records, as sanlight_mesh/mesh_watchdog.py
-- reads it.
use sanlight_mesh_mqtt_gatew.Base.{
  ℕ, ◌≡◌, ◌∙◌, refl, Bool, true, Option, some, List, err, String, pos,
}
use sanlight_mesh_mqtt_gatew.Value.{integer, text, Fields, get}
use sanlight_mesh_mqtt_gatew.GatewayProtocol.{Stamp}
use sanlight_mesh_mqtt_gatew.Watchdog.{WatchdogConfig}
use sanlight_mesh_mqtt_gatew.Watchdog.Incident.{eligible_incident, skipped, no_failure}
use sanlight_mesh_mqtt_gatew.GatewayStore.{
  GatewayStore, isoformat_utc, after_response, record_mesh_outcome,
}
use sanlight_mesh_mqtt_gatew.GatewayStore.Dict.{put, get-put_same, get-pop_other}

abbrev pub count_key : String
count_key = "consecutiveCompleteNoResponseCommands"

module _ (isoformat : ℕ → String) where
  count_after_response :
      (health : Fields) (current : ℕ)
      → get (after_response isoformat health current) count_key ≡ some (integer (pos 0))
  unfolding after_response
  count_after_response health current =
      get-pop_other _ "lastCompleteNoResponseCommand" count_key refl
      ∙ get-pop_other _ "lastCompleteNoResponseAt" count_key refl
      ∙ get-put_same
          (put health "lastSuccessfulResponseAt" (text (isoformat_utc isoformat current))) count_key
          (integer (pos 0))

  -- After a response has been recorded, the watchdog finds no incident, whatever its own state, its
  -- settings and the time: no service is stopped or restarted.
  pub record_mesh_outcome-healthy :
      (fromisoformat : List ℕ → Option Stamp) (store : GatewayStore)
      (command_id action target : String) (complete_no_response : Bool) (state : Fields)
      (config : WatchdogConfig) (current now : ℕ)
      → eligible_incident fromisoformat
          (record_mesh_outcome isoformat store command_id action target true complete_no_response
            current).mesh_health
          state
          config
          now
        ≡ err (skipped no_failure)
  unfolding eligible_incident record_mesh_outcome
  record_mesh_outcome-healthy f store i a t b state config current now =
      rw (count_after_response store.mesh_health current)
