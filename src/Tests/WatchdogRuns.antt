-- ===== src/Tests/WatchdogRuns.antt =====
-- Tests of the models of sanlight_mesh/max_brightness_policy.py and sanlight_mesh/mesh_watchdog.py.
use sanlight_mesh_mqtt_gatew.Base.{
  ℕ, ◌*◌, ◌≡◌, refl, inr, pos, true, false, Option, none, some, List, [], ◌∷◌, ok, codes, ◌&&◌,
}
use sanlight_mesh_mqtt_gatew.Value.{integer, text, object, Fields, end, field, checked_int}
use sanlight_mesh_mqtt_gatew.GatewayProtocol.{Stamp, aware, add_seconds, replace_z, to_utc, second}
use sanlight_mesh_mqtt_gatew.MaxBrightnessPolicy.{
  Received, set_max_status_rejection_reason, unicast_status_rejection_reason,
  max_attempts_for_destination, common_vendor_status_rejection_reason,
}
use sanlight_mesh_mqtt_gatew.MaxBrightnessPolicy.Accept.{
  set_max_status_rejection_reason_iff, max_attempts_for_destination_unicast,
}
use sanlight_mesh_mqtt_gatew.Watchdog.{
  WatchdogConfig, load_watchdog_config, table_config, strict_int, strict_bool, only_allowed,
  assess_probe, occurs, accepted_marker, no_response_marker,
}
use sanlight_mesh_mqtt_gatew.Watchdog.Settings.{
  InRange, load_watchdog_config-InRange, assess_probe_iff,
}
use sanlight_mesh_mqtt_gatew.Watchdog.Incident.{
  eligible_incident, parse_time, recovery_history, recent, in_window, sub_seconds, sorted, insert,
}
use sanlight_mesh_mqtt_gatew.Watchdog.Safe.{IsEligible, eligible_incident-IsEligible}

-- A status of lamp 0x00C3 to the sender 0x0005, asked for by the group 0xC000.
abbrev status : Received
status = record { source = 195; key_index = 1; response_destination = some 5 }

set_max_status_rejection_reason_iff_example :
    set_max_status_rejection_reason status 49152 1 5 (194 ∷ 195 ∷ []) (49152 ∷ []) ≡ none
set_max_status_rejection_reason_iff_example =
    (set_max_status_rejection_reason_iff status 49152 1 5 (194 ∷ 195 ∷ []) (49152 ∷ [])).1
      (record { same_key = refl; same_destination = refl }, inr (refl, refl, refl))

two_attempts : max_attempts_for_destination 195 (194 ∷ 195 ∷ []) ≡ 2
unfolding max_attempts_for_destination
two_attempts = refl

accepted : set_max_status_rejection_reason status 195 1 5 (194 ∷ 195 ∷ []) [] ≡ none
unfolding set_max_status_rejection_reason common_vendor_status_rejection_reason
accepted = refl

max_attempts_for_destination_unicast_example :
    (status.source ≡ 195) × (unicast_status_rejection_reason status 195 1 5 (194 ∷ 195 ∷ []) ≡ none)
max_attempts_for_destination_unicast_example =
    max_attempts_for_destination_unicast status 195 1 5 (194 ∷ 195 ∷ []) [] two_attempts accepted

abbrev defaults : WatchdogConfig
defaults = record {
  enabled = true;
  incident_max_age_seconds = 3600;
  recent_success_seconds = 86400;
  probe_timeout_seconds = 50;
  probe_cooldown_seconds = 3600;
  recovery_cooldown_seconds = 1800;
  recovery_window_seconds = 21600;
  max_recoveries_in_window = 2;
  verification_timeout_seconds = 60;
}

no_table : load_watchdog_config end ≡ ok defaults
unfolding load_watchdog_config table_config strict_int strict_bool only_allowed checked_int
no_table = refl

load_watchdog_config-InRange_example : InRange defaults
load_watchdog_config-InRange_example = load_watchdog_config-InRange end defaults no_table

abbrev stalled : List ℕ
stalled =
    codes "accepted for Mesh transmission\nGET-LIVE COMPLETE. No SANlight 0x0D status was observed"

markers :
    (occurs accepted_marker stalled ≡ true)
    × (occurs no_response_marker stalled ≡ true)
    × ((occurs (codes "GET-LIVE COMPLETE. Node 0x") stalled && occurs (codes "reports") stalled)
        ≡ false)
unfolding occurs
markers = (refl, refl, refl)

assess_probe_iff_example : (assess_probe stalled (some 812) (some 812)).confirmed_stall ≡ true
assess_probe_iff_example =
    (assess_probe_iff stalled (some 812) (some 812)).1
      (markers.0, markers.1, markers.2, (812, refl, refl))

-- A text is the moment 2026-10-05T12:00:00Z, whatever it says.
abbrev noon : List ℕ → Option Stamp
noon s = some (aware (pos (63926798400 * second)))

abbrev health : Fields
health = field "consecutiveCompleteNoResponseCommands" (integer (pos 1)) (
    field "lastSuccessfulResponseAt" (text "2026-10-05T12:00:00Z") (
      field "lastCompleteNoResponseAt" (text "2026-10-05T12:00:00Z") (
        field "lastCompleteNoResponseCommand"
          (object (field "action" (text "refresh") (field "target" (text "all") end))) end)))

eligible : eligible_incident noon health end defaults (63926798460 * second) ≡ ok tt
unfolding eligible_incident parse_time recovery_history recent in_window sub_seconds sorted insert
    add_seconds replace_z to_utc
eligible = refl

eligible_incident-IsEligible_example : IsEligible noon health end defaults (63926798460 * second)
eligible_incident-IsEligible_example =
    eligible_incident-IsEligible noon health end defaults (63926798460 * second) eligible
