-- ===== src/Service/Message.antt =====
-- The MQTT callback `on_message` of sanlight_mesh/gateway_service.py.
use sanlight_mesh_mqtt_gatew.Base.{
  Bool, true, false, String, Option, none, some, List, if◌then◌else◌, ok, err, str_eq, codes,
}
use sanlight_mesh_mqtt_gatew.Value.{
  Value, null, boolean, integer, float, text, array, object, Fields, end, field, get, value_or,
}
use sanlight_mesh_mqtt_gatew.GatewayProtocol.{
  Target, all_nodes, latest, gateway, node, GatewayCommand, protocol, retained_command,
  unknown_node, type_error, overflow_error, loads_error,
}
use sanlight_mesh_mqtt_gatew.GatewayProtocol.Names.{matches_id}
use sanlight_mesh_mqtt_gatew.GatewayProtocol.Decode.{
  Loads, loaded, unicode_error, json_error, other_error, decode_command, member,
}
use sanlight_mesh_mqtt_gatew.CommandQueue.{CommandQueue, Put, full, returned, contains, put}
use sanlight_mesh_mqtt_gatew.GatewayStore.{get_result, get_inflight}
use sanlight_mesh_mqtt_gatew.GatewayStore.Dict.{put as put_field}
use sanlight_mesh_mqtt_gatew.Service.{
  Config, IncomingMessage, Fault, raised, queue_full, save_error, publish_error, execution_error,
  out_of_range, Environment,
}
use sanlight_mesh_mqtt_gatew.Service.Run.{Run, ◌>>=◌, return, raise, lift, try, read_clock}
use sanlight_mesh_mqtt_gatew.Service.Report.{target_text, make_result, as_fault, publish_result}

abbrev id_field : Value → Option String
id_field (text s) = if matches_id (codes s) then some s else none
id_field null = none
id_field (boolean b) = none
id_field (integer n) = none
id_field (float f) = none
id_field (array xs) = none
id_field (object fs) = none

abbrev id_of_document : Value → Option String
id_of_document (object fs) = id_field (value_or (get fs "id") null)
id_of_document null = none
id_of_document (boolean b) = none
id_of_document (integer n) = none
id_of_document (float f) = none
id_of_document (text s) = none
id_of_document (array xs) = none

-- `_best_effort_id`, of what `json.loads` does with the payload.
unfoldable pub best_effort_id : Loads → Option String
best_effort_id (loaded v) = id_of_document v
best_effort_id unicode_error = none
best_effort_id json_error = none
best_effort_id other_error = none

-- `command.target in ("all", "latest", "gateway") or command.target in self.nodes`
unfoldable pub known_target : List String → Target → Bool
known_target nodes all_nodes = true
known_target nodes latest = true
known_target nodes gateway = true
known_target nodes (node a) = member (target_text (node a)) nodes

abbrev mark_duplicate : Value → Value
mark_duplicate (object fs) = object (put_field fs "duplicateDelivery" (boolean true))
mark_duplicate null = null
mark_duplicate (boolean b) = boolean b
mark_duplicate (integer n) = integer n
mark_duplicate (float f) = float f
mark_duplicate (text s) = text s
mark_duplicate (array xs) = array xs

-- The result of a duplicate delivery. The round trip through JSON is a copy.
unfoldable pub as_duplicate : Fields → Fields
as_duplicate cached =
    put_field cached "details" (mark_duplicate (value_or (get cached "details") (object end)))

abbrev value_or_fresh : Option String → String → String
value_or_fresh none fresh = fresh
value_or_fresh (some s) fresh = s

-- What `put` of the queue returns or raises.
abbrev pub finish_put : CommandQueue × Put → Run (Unit {0})
finish_put (queue, full) = raise queue_full
finish_put (queue, returned b) = λ w. (record w { queue = queue }, ok tt)

unfoldable pub enqueue : GatewayCommand → Run (Unit {0})
enqueue c = λ w. if contains w.queue c.command_id then (w, ok tt) else finish_put (put w.queue c) w

module _ (env : Environment) where
  -- The body from the cached result on.
  unfoldable pub deliver : GatewayCommand → Option Fields → Option Fields → Run (Unit {0})
  unfolding enqueue
  deliver c (some result) inflight = publish_result env c.command_id (as_duplicate result)
  deliver c none (some inflight) = do
    now ← read_clock env
    publish_result env c.command_id (
        make_result env.isoformat (some c) c.command_id false "indeterminate-after-restart"
          "This command id was executing when the gateway stopped before a final result was stored. It was not executed again. Refresh the affected node state and use a new command id only after deciding whether another write is required."
          (field "previousExecution" (object inflight) end) now)
  deliver c none none = enqueue c

  -- The test of the target, and the rest of the body.
  unfoldable pub check_target : Config → GatewayCommand → Run (Unit {0})
  unfolding deliver
  check_target config c = λ w.
      if known_target config.nodes c.target
      then deliver c (get_result w.store c.command_id) (get_inflight w.store c.command_id) w
      else (w, err (raised (protocol unknown_node)))

  unfoldable pub decode_and_deliver : Config → IncomingMessage → Run (Unit {0})
  unfolding check_target
  decode_and_deliver config message = do
    now ← read_clock env
    c ← lift (as_fault (decode_command env.fromisoformat env.loads message.payload now))
    check_target config c

  -- The body of `try`.
  unfoldable pub accept : Config → IncomingMessage → Run (Unit {0})
  unfolding decode_and_deliver
  accept config message =
      if message.retain
      then raise (raised (protocol retained_command))
      else decode_and_deliver config message

  -- A result without a command.
  unfoldable pub reject : String → String → String → Run (Unit {0})
  reject command_id status message = do
    now ← read_clock env
    publish_result env command_id
        (make_result env.isoformat none command_id false status message end now)

  -- The two `except` clauses; what they do not catch leaves the callback.
  unfoldable pub on_error : String → Fault → Run (Unit {0})
  unfolding reject
  on_error fallback_id queue_full =
      reject fallback_id "queue-full" "Gateway command queue is full; retry with a new command id."
  on_error fallback_id (raised (protocol e)) = reject fallback_id "rejected" (env.error_text e)
  on_error fallback_id (raised type_error) = raise (raised type_error)
  on_error fallback_id (raised overflow_error) = raise (raised overflow_error)
  on_error fallback_id (raised loads_error) = raise (raised loads_error)
  on_error fallback_id save_error = raise save_error
  on_error fallback_id publish_error = raise publish_error
  on_error fallback_id execution_error = raise execution_error
  on_error fallback_id out_of_range = raise out_of_range

  -- `on_message`; `fresh` is the identifier that is made up for a message that has none.
  unfoldable pub on_message : Config → String → IncomingMessage → Run (Unit {0})
  unfolding accept on_error
  on_message config fresh message =
      if str_eq message.topic config.command_topic
      then try (accept config message)
          (on_error (value_or_fresh (best_effort_id (env.loads message.payload)) fresh))
      else return tt
