-- ===== src/GatewayProtocol/Valid.antt =====
-- What a command that `decode_command` returns has been checked for.
use sanlight_mesh_mqtt_gatew.Base.{ℕ, ◌+◌, ◌*◌, ◌≤◌, ◌<◌, ◌≡◌, true, codes, arith, ok}
use sanlight_mesh_mqtt_gatew.Value.{Value}
use sanlight_mesh_mqtt_gatew.GatewayProtocol.{GatewayCommand, second, time_limit, add_seconds}
use sanlight_mesh_mqtt_gatew.GatewayProtocol.Names.{matches_id}
use sanlight_mesh_mqtt_gatew.GatewayProtocol.Accepts.{Accepts}

pub record IsValid (now : ℕ) (c : GatewayCommand) : Type 0 where
  pub id_matches : matches_id (codes c.command_id) ≡ true
  pub lifetime : (ttl : ℕ) × (1 ≤ ttl) × (ttl ≤ 300) × (c.expires_at ≡ c.created_at + ttl * second)
  pub not_in_future : c.created_at ≤ now + 60 * second
  pub representable : c.expires_at < time_limit
  pub accepted : Accepts c.action c.target c.value c.seconds_since_midnight c.confirmed

pub add_seconds_sound :
    (t n r : ℕ) → add_seconds t n ≡ ok r → (r ≡ t + n * second) × (r < time_limit)
unfolding add_seconds
add_seconds_sound t n r h = ground arith
