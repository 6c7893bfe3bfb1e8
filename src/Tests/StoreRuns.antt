-- ===== src/Tests/StoreRuns.antt =====
-- Tests of the model of sanlight_mesh/gateway_store.py.
use sanlight_mesh_mqtt_gatew.Base.{
  ℕ, ◌+◌, ◌*◌, ◌≡◌, refl, pos, arith, true, String, Option, some, List, [], ◌∷◌, ok, err,
}
use sanlight_mesh_mqtt_gatew.Value.{Value, text, object, end, field, null}
use sanlight_mesh_mqtt_gatew.GatewayProtocol.{Stamp, aware, second, replace_z, to_utc}
use sanlight_mesh_mqtt_gatew.GatewayProtocol.Decode.{parse_timestamp}
use sanlight_mesh_mqtt_gatew.Watchdog.{WatchdogConfig}
use sanlight_mesh_mqtt_gatew.Watchdog.Incident.{eligible_incident, skipped, no_failure, sub_seconds}
use sanlight_mesh_mqtt_gatew.GatewayStore.{
  GatewayStore, prune, valid, sort, insert, as_fields, record_mesh_outcome, isoformat_utc,
  replace_offset,
}
use sanlight_mesh_mqtt_gatew.Protocol.Opcode.{payload_too_short}
use sanlight_mesh_mqtt_gatew.Protocol.Daylight.{DaylightStatus, raw_status}
use sanlight_mesh_mqtt_gatew.GatewayStore.Node.{update_node, update_daylight, get_node}
use sanlight_mesh_mqtt_gatew.GatewayStore.Node.Fresh.{IsStored, update_node-IsStored}
use sanlight_mesh_mqtt_gatew.GatewayStore.Node.Kept.{verified_part, update_daylight-keeps}
use sanlight_mesh_mqtt_gatew.GatewayStore.Pruned.{IsPruned, prune-IsPruned}
use sanlight_mesh_mqtt_gatew.GatewayStore.Health.{record_mesh_outcome-healthy}

-- A text that is one character: that many seconds after year 2000 began.
abbrev at : List ℕ → Option Stamp
at [] = Option.none
at (c ∷ cs) = some (aware (pos ((63113904000 + c) * second)))

abbrev entry : String → Value
entry time = object (field "completedAt" (text time) (field "result" (object end) end))

abbrev store : GatewayStore
store = record {
  dedup_ttl_seconds = 10;
  dedup_max_entries = 2;
  processed = field "old" (entry "A") (
      field "b" (entry "P") (field "bad" null (field "c" (entry "R") (field "d" (entry "Q") end))));
  inflight = end;
  nodes = end;
  mesh_health = end;
}

abbrev pruned : GatewayStore
pruned = record store { processed = field "c" (entry "R") (field "d" (entry "Q") end) }

abbrev current : ℕ
current = (63113904000 + 85) * second

abbrev cutoff : ℕ
cutoff = (63113904000 + 75) * second

run_prune : prune at store current ≡ ok pruned
unfolding prune valid sort insert as_fields parse_timestamp sub_seconds replace_z to_utc
run_prune = refl

run_cutoff : sub_seconds current 10 ≡ ok cutoff
unfolding sub_seconds
run_cutoff = refl

prune-IsPruned_example : IsPruned at store pruned cutoff
prune-IsPruned_example = prune-IsPruned at store pruned current cutoff run_cutoff run_prune

abbrev noon : ℕ → String
noon t = "2026-10-05T12:00:00+00:00"

abbrev settings : WatchdogConfig
settings = record {
  enabled = true;
  incident_max_age_seconds = 3600;
  recent_success_seconds = 86400;
  probe_timeout_seconds = 50;
  probe_cooldown_seconds = 3600;
  recovery_cooldown_seconds = 1800;
  recovery_window_seconds = 21600;
  max_recoveries_in_window = 2;
  verification_timeout_seconds = 60;
}

record_mesh_outcome-healthy_example :
    eligible_incident at
      (record_mesh_outcome noon store "a-1" "refresh" "all" true true current).mesh_health
      end
      settings
      current
    ≡ err (skipped no_failure)
record_mesh_outcome-healthy_example =
    record_mesh_outcome-healthy noon at store "a-1" "refresh" "all" true end settings current
      current

abbrev no_text : List ℕ → Option (List ℕ)
no_text bytes = Option.none

abbrev no_hex : String → Option (List ℕ)
no_hex s = Option.none

read_noon :
    parse_timestamp at (text (isoformat_utc noon current)) ≡ ok ((63113904000 + 50) * second)
unfolding parse_timestamp replace_z to_utc replace_offset
read_noon = refl

update_node-IsStored_example :
    (after : GatewayStore) × (update_node noon store "00C3" (pos 40) current ≡ ok after)
    × IsStored at no_text no_hex noon after "00C3" 40 ((63113904000 + 50) * second) 60 current
update_node-IsStored_example =
    update_node-IsStored at no_text no_hex noon store "00C3" 40 ((63113904000 + 50) * second)
      current 60 current (omega arith) read_noon

-- A response that could not be parsed.
abbrev unparsed : DaylightStatus
unparsed = raw_status (pos 3) 4 (196 ∷ 139 ∷ 10 ∷ 1 ∷ []) payload_too_short

update_daylight-keeps_example :
    verified_part (
      get_node at no_text no_hex
        (update_daylight noon (λ b. "c48b0a01") (λ e. "too short") store "00C3" unparsed current)
        "00C3")
    ≡ verified_part (get_node at no_text no_hex store "00C3")
update_daylight-keeps_example =
    update_daylight-keeps at no_text no_hex noon store "00C3" current (λ b. "c48b0a01")
      (λ e. "too short") unparsed refl
