-- ===== src/MaxBrightnessPolicy.antt =====
-- Attempt counts and the matching of MaxBrightness statuses to the active request:
-- sanlight_mesh/max_brightness_policy.py. Addresses and key indices are numbers, a collection of
-- addresses is a list, and a rejection keeps which of the texts it is.
pub mod Accept
use sanlight_mesh_mqtt_gatew.Base.{
  ℕ, Bool, true, false, Option, none, some, List, contains, ◌==◌, if◌then◌else◌,
}

abbrev pub set_max_unicast_max_attempts : ℕ
set_max_unicast_max_attempts = 2

abbrev pub set_max_group_max_attempts : ℕ
set_max_group_max_attempts = 1

unfoldable pub max_attempts_for_destination : ℕ → List ℕ → ℕ
max_attempts_for_destination destination node_addresses =
    if contains node_addresses destination
    then set_max_unicast_max_attempts
    else set_max_group_max_attempts

pub data Rejection : Type 0 where
  unexpected_app_key : Rejection
  unexpected_destination : Rejection
  target_not_lamp : Rejection
  unexpected_source : Rejection
  source_not_lamp : Rejection
  unknown_target : Rejection

-- Where a status came from, under which key, and to whom, if that is known.
pub record Received : Type 0 where
  pub source : ℕ
  pub key_index : ℕ
  pub response_destination : Option ℕ

-- `response_destination == sender_unicast`
abbrev pub is_address : Option ℕ → ℕ → Bool
is_address none a = false
is_address (some x) a = x == a

-- `if reason is not None: return reason`
abbrev pub or_reason : Option Rejection → Option Rejection → Option Rejection
or_reason (some r) other = some r
or_reason none other = other

unfoldable pub common_vendor_status_rejection_reason : Received → ℕ → ℕ → Option Rejection
common_vendor_status_rejection_reason status expected_app_index sender_unicast =
    if status.key_index == expected_app_index
    then (if is_address status.response_destination sender_unicast
        then none
        else some unexpected_destination)
    else some unexpected_app_key

unfoldable pub unicast_status_rejection_reason : Received → ℕ → ℕ → ℕ → List ℕ → Option Rejection
unicast_status_rejection_reason status requested_destination expected_app_index sender_unicast
      node_addresses =
    or_reason (common_vendor_status_rejection_reason status expected_app_index sender_unicast) (
      if contains node_addresses requested_destination
      then (if status.source == requested_destination then none else some unexpected_source)
      else some target_not_lamp)

unfoldable pub set_max_status_rejection_reason :
    Received → ℕ → ℕ → ℕ → List ℕ → List ℕ → Option Rejection
set_max_status_rejection_reason status requested_destination expected_app_index sender_unicast
      node_addresses group_addresses =
    or_reason (common_vendor_status_rejection_reason status expected_app_index sender_unicast) (
      if contains node_addresses requested_destination
      then (if status.source == requested_destination then none else some unexpected_source)
      else if contains group_addresses requested_destination
      then (if contains node_addresses status.source then none else some source_not_lamp)
      else some unknown_target)
