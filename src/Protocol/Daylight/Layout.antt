-- ===== src/Protocol/Daylight/Layout.antt =====
-- The wire layout of a daylight configuration, written as an encoder. The program only decodes:
-- this is the description that its decoder is compared with.
use sanlight_mesh_mqtt_gatew.Base.{
  ℕ, ◌≤◌, ◌<◌, ◌≡◌, ◌/◌, ◌%◌, ℤ, pos, negsuc, false, List, [], ◌∷◌, ◌++◌, length, All,
}
use sanlight_mesh_mqtt_gatew.Protocol.Bytes.{to_bytes_le}
use sanlight_mesh_mqtt_gatew.Protocol.Daylight.{
  DaylightValue, DaylightConfiguration, max_daylight_values, earlier, is_control,
}

-- A minute of two bytes, and a percentage.
abbrev pub encode_values : List DaylightValue → List ℕ
encode_values [] = []
encode_values (v ∷ vs) =
    v.time_in_minutes % 256 ∷ v.time_in_minutes / 256 ∷ v.brightness ∷ encode_values vs

-- Identifier of four bytes, count, values, name, and a final zero byte.
abbrev pub encode_configuration : DaylightConfiguration → List ℕ → List ℕ
encode_configuration c name_bytes =
    to_bytes_le 4 c.configuration_id
    ++ (length c.values ∷ encode_values c.values ++ (name_bytes ++ 0 ∷ []))

-- Minutes and percentages in range, and no value before the one that it follows.
abbrev pub IsOrdered : ℤ → List DaylightValue → Type 0
IsOrdered previous [] = Unit
IsOrdered previous (v ∷ vs) =
    (v.time_in_minutes ≤ 1440)
    × (v.brightness ≤ 100)
    × (earlier v.time_in_minutes previous ≡ false)
    × IsOrdered (pos v.time_in_minutes) vs

pub record IsEncodable (c : DaylightConfiguration) : Type 0 where
  pub id_fits : c.configuration_id < 4294967296
  pub count_fits : length c.values ≤ max_daylight_values
  pub values_ordered : IsOrdered (negsuc 0) c.values
  pub name_printable : All (λ x. is_control x ≡ false) c.name
