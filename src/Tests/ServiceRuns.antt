-- ===== src/Tests/ServiceRuns.antt =====
-- Tests of the model of sanlight_mesh/gateway_service.py.
use sanlight_mesh_mqtt_gatew.Base.{
  refl, ℕ, ◌+◌, ◌*◌, ◌≡◌, ◌⊎◌, pos, true, false, none, some, [], ◌∷◌,
}
use sanlight_mesh_mqtt_gatew.Value.{null, text, object, integer, Fields, end, field}
use sanlight_mesh_mqtt_gatew.GatewayProtocol.{GatewayCommand, set_max, node, aware, second}
use sanlight_mesh_mqtt_gatew.GatewayProtocol.Decode.{loaded}
use sanlight_mesh_mqtt_gatew.CommandQueue.{contains, coalesce_set_max}
use sanlight_mesh_mqtt_gatew.Service.{Config, IncomingMessage, ExecutionResult, World, Environment}
use sanlight_mesh_mqtt_gatew.Service.Worker.{process_next, wait_for_write_slot}
use sanlight_mesh_mqtt_gatew.Service.Message.{on_message}
use sanlight_mesh_mqtt_gatew.Service.Accepted.{Accepted, Untouched, on_message-Accepted}
use sanlight_mesh_mqtt_gatew.Service.Logged.{Logged}
use sanlight_mesh_mqtt_gatew.Service.Slot.{Slot, wait_for_write_slot-Slot}
use sanlight_mesh_mqtt_gatew.Service.Released.{executed_for, process_next-released}

abbrev moment : ℕ
moment = 63926798400 * second

abbrev document : Fields
document = field "id" (text "a-1") (
    field "action" (text "set-max") (
      field "target" (text "00c3") (
        field "value" (integer (pos 40)) (
          field "createdAt" (text "2026-10-05T12:00:00Z")
            (field "ttlSeconds" (integer (pos 30)) end)))))

abbrev read_at_40 : ExecutionResult
read_at_40 = record {
  is_ok = true;
  status = "verified";
  message = "";
  reported = ("00C3", 40) ∷ [];
  details = end;
  live_reported = [];
  daylight_reported = [];
}

abbrev environment : Environment
environment = record {
  fromisoformat = λ s. some (aware (pos moment));
  isoformat = λ t. "2026-10-05T12:00:00+00:00";
  utf8 = λ bytes. some bytes;
  fromhex = λ s. none;
  hex = λ bytes. "";
  loads = λ payload. loaded (object document);
  error_text = λ e. "rejected";
  parse_error_text = λ e. "";
  fault_text = λ e. "failed";
  number_text = λ n. "40";
  live_document = λ s. null;
  daylight_document = λ s. null;
  utc_now = λ l. moment;
  monotonic = λ l. 20000000;
  can_save = λ l. true;
  can_publish = λ l. true;
  stopped = λ l n. false;
  meanwhile = λ l q. q;
  execute = λ l c. some read_at_40;
  sender_sequence_state = λ l. none;
}

abbrev config : Config
config = record {
  command_topic = "sanlight/command";
  nodes = "00C3" ∷ [];
  coalesce_window = 250;
  state_fresh_seconds = 30;
}

abbrev world : World
world = record {
  store = record {
    dedup_ttl_seconds = 10;
    dedup_max_entries = 2;
    processed = end;
    inflight = end;
    nodes = end;
    mesh_health = end;
  };
  queue = record { max_size = 4; items = []; pending_ids = "a-1" ∷ [] };
  last_write_monotonic = 15000000;
  sequence_state = end;
  log = [];
}

abbrev command : GatewayCommand
command = record {
  command_id = "a-1";
  action = set_max;
  target = node 195;
  created_at = moment;
  expires_at = moment + 30 * second;
  value = some 40;
  seconds_since_midnight = none;
  confirmed = false;
}

abbrev message : IncomingMessage
message = record { topic = "sanlight/command"; payload = 123 ∷ []; retain = false }

-- A world in which nothing is pending.
abbrev idle : World
idle = record world { queue = record { max_size = 4; items = []; pending_ids = [] } }

-- There the command of the message is queued.
message_is_queued :
    (on_message environment config "b" message idle).0.queue.pending_ids ≡ "a-1" ∷ []
unfolding on_message sanlight_mesh_mqtt_gatew.Service.Run.try
    sanlight_mesh_mqtt_gatew.Service.Run.◌>>=◌ sanlight_mesh_mqtt_gatew.Service.Run.read_clock
    sanlight_mesh_mqtt_gatew.Service.Run.lift
    sanlight_mesh_mqtt_gatew.GatewayProtocol.Decode.decode_command
    sanlight_mesh_mqtt_gatew.GatewayProtocol.Decode.load_document
    sanlight_mesh_mqtt_gatew.GatewayProtocol.Decode.decode_document
    sanlight_mesh_mqtt_gatew.GatewayProtocol.Decode.only_common_keys
    sanlight_mesh_mqtt_gatew.GatewayProtocol.Decode.decode_id
    sanlight_mesh_mqtt_gatew.GatewayProtocol.Names.matches_id
    sanlight_mesh_mqtt_gatew.GatewayProtocol.Names.decode_action
    sanlight_mesh_mqtt_gatew.GatewayProtocol.Names.action_named
    sanlight_mesh_mqtt_gatew.GatewayProtocol.Decode.parse_timestamp
    sanlight_mesh_mqtt_gatew.Value.checked_int sanlight_mesh_mqtt_gatew.GatewayProtocol.add_seconds
    sanlight_mesh_mqtt_gatew.GatewayProtocol.Decode.decode_confirmed
    sanlight_mesh_mqtt_gatew.GatewayProtocol.Decode.decode_arguments
    sanlight_mesh_mqtt_gatew.GatewayProtocol.Names.normalize_node
    sanlight_mesh_mqtt_gatew.GatewayProtocol.Names.node_named
    sanlight_mesh_mqtt_gatew.GatewayProtocol.Names.four_hex
    sanlight_mesh_mqtt_gatew.GatewayProtocol.Decode.forbid
    sanlight_mesh_mqtt_gatew.Service.Message.known_target
    sanlight_mesh_mqtt_gatew.Service.Report.address_text
    sanlight_mesh_mqtt_gatew.GatewayStore.get_result
    sanlight_mesh_mqtt_gatew.GatewayStore.get_inflight contains
    sanlight_mesh_mqtt_gatew.CommandQueue.put sanlight_mesh_mqtt_gatew.CommandQueue.is_full
    sanlight_mesh_mqtt_gatew.CommandQueue.add_id
message_is_queued = refl

on_message-Accepted_example :
    Accepted environment config message idle (on_message environment config "b" message idle).0
    ⊎ Untouched idle (on_message environment config "b" message idle).0
on_message-Accepted_example = on_message-Accepted environment config message "b" idle

wait_for_write_slot-Slot_example :
    Slot environment command world (wait_for_write_slot environment command world)
wait_for_write_slot-Slot_example = wait_for_write_slot-Slot environment command world

process_next-released_example :
    (contains (process_next environment config command world).queue "a-1" ≡ false)
    × (contains
          (process_next environment config command world).queue
          (executed_for command
            (coalesce_set_max world.queue command 250 (environment.meanwhile [])).1).command_id
        ≡ false)
process_next-released_example = process_next-released environment config command world
