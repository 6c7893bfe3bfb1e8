-- ===== src/Protocol/Opcode.antt =====
-- The vendor opcodes (sanlight_mesh/constants.py), the three bytes that a vendor PDU begins with,
-- and the predicates that recognise a status PDU (sanlight_mesh/protocol.py).
mod Prefix
pub use Prefix.*
unfoldable pub use Prefix.{opcode_bytes, vendor_opcode, starts_with_opcode}
use sanlight_mesh_mqtt_gatew.Base.{ℕ, Bool, ◌||◌, List}

abbrev pub set_max_brightness_opcode : ℕ
set_max_brightness_opcode = 0x06

abbrev pub set_max_brightness_status_opcode : ℕ
set_max_brightness_status_opcode = 0x07

abbrev pub get_max_brightness_opcode : ℕ
get_max_brightness_opcode = 0x08

abbrev pub get_max_brightness_status_opcode : ℕ
get_max_brightness_status_opcode = 0x09

abbrev pub set_uptime_opcode : ℕ
set_uptime_opcode = 0x0A

abbrev pub set_uptime_status_opcode : ℕ
set_uptime_status_opcode = 0x0B

abbrev pub get_uptime_brightness_opcode : ℕ
get_uptime_brightness_opcode = 0x0C

abbrev pub get_uptime_brightness_status_opcode : ℕ
get_uptime_brightness_status_opcode = 0x0D

abbrev pub get_daylight_configuration_opcode : ℕ
get_daylight_configuration_opcode = 0x03

abbrev pub get_daylight_configuration_status_opcode : ℕ
get_daylight_configuration_status_opcode = 0x04

abbrev pub get_combined_daylight_data_opcode : ℕ
get_combined_daylight_data_opcode = 0x0E

abbrev pub get_combined_daylight_data_status_opcode : ℕ
get_combined_daylight_data_status_opcode = 0x0F

abbrev pub is_set_max_brightness_status : List ℕ → Bool
is_set_max_brightness_status pdu = starts_with_opcode pdu set_max_brightness_status_opcode

abbrev pub is_get_max_brightness_status : List ℕ → Bool
is_get_max_brightness_status pdu = starts_with_opcode pdu get_max_brightness_status_opcode

abbrev pub is_set_uptime_status : List ℕ → Bool
is_set_uptime_status pdu = starts_with_opcode pdu set_uptime_status_opcode

abbrev pub is_get_uptime_brightness_status : List ℕ → Bool
is_get_uptime_brightness_status pdu = starts_with_opcode pdu get_uptime_brightness_status_opcode

abbrev pub is_get_daylight_configuration_status : List ℕ → Bool
is_get_daylight_configuration_status pdu =
    starts_with_opcode pdu get_daylight_configuration_status_opcode

abbrev pub is_get_combined_daylight_data_status : List ℕ → Bool
is_get_combined_daylight_data_status pdu =
    starts_with_opcode pdu get_combined_daylight_data_status_opcode

abbrev pub is_daylight_status : List ℕ → Bool
is_daylight_status pdu =
    is_get_daylight_configuration_status pdu || is_get_combined_daylight_data_status pdu
