-- ===== src/Service/Report.antt =====
-- The results of sanlight_mesh/gateway_service.py, `make_result` of sanlight_mesh/gateway_protocol.py,
-- and how results are published.
use sanlight_mesh_mqtt_gatew.Protocol.Clock.{char_at}
use sanlight_mesh_mqtt_gatew.Base.{
  ℕ, ◌/◌, ◌%◌, pos, Bool, String, Option, none, some, Result, ok, err,
}
use sanlight_mesh_mqtt_gatew.Value.{boolean, integer, text, object, Fields, end, field}
use sanlight_mesh_mqtt_gatew.GatewayProtocol.{
  Action, set_max, refresh, read_daylight, blackout, restore_blackout, sync_clock, set_clock,
  refresh_gateway_info, Target, all_nodes, latest, gateway, node, GatewayCommand, Raised,
}
use sanlight_mesh_mqtt_gatew.GatewayStore.Dict.{put}
use sanlight_mesh_mqtt_gatew.GatewayStore.{isoformat_utc, remember_result}
use sanlight_mesh_mqtt_gatew.Service.{remembered, result_published, Fault, raised, Environment}
use sanlight_mesh_mqtt_gatew.Service.Run.{
  Run, ◌>>=◌, ◌>>◌, return, lift, try, get_world, set_store, read_clock, save, publish,
}

abbrev pub action_text : Action → String
action_text set_max = "set-max"
action_text refresh = "refresh"
action_text read_daylight = "read-daylight"
action_text blackout = "blackout"
action_text restore_blackout = "restore-blackout"
action_text sync_clock = "sync-clock"
action_text set_clock = "set-clock"
action_text refresh_gateway_info = "refresh-gateway-info"

-- `f"{address:04X}"`, for an address of 16 bits.
unfoldable pub address_text : ℕ → String
address_text a =
    let digit = char_at "0123456789ABCDEF" in
    String.◌∷◌ (digit (a / 4096 % 16)) (
      String.◌∷◌ (digit (a / 256 % 16))
        (String.◌∷◌ (digit (a / 16 % 16)) (String.◌∷◌ (digit (a % 16)) "")))

abbrev pub target_text : Target → String
target_text all_nodes = "all"
target_text latest = "latest"
target_text gateway = "gateway"
target_text (node a) = address_text a

abbrev pub put_number : String → Option ℕ → Fields → Fields
put_number key none fields = fields
put_number key (some n) fields = put fields key (integer (pos n))

abbrev pub put_details : Fields → Fields → Fields
put_details end fields = fields
put_details (field k v fs) fields = put fields "details" (object (field k v fs))

-- What a result has about its command.
unfoldable pub with_command : Option GatewayCommand → Fields → Fields
with_command none fields = fields
with_command (some c) fields = put_number "requestedSecondsSinceMidnight" c.seconds_since_midnight (
    put_number "requested" c.value (
      put (put fields "action" (text (action_text c.action))) "target"
        (text (target_text c.target))))

abbrev id_of : Option GatewayCommand → String → String
id_of none command_id = command_id
id_of (some c) command_id = c.command_id

-- `make_result`, at the time of `utc_now()`.
unfoldable pub make_result :
    (ℕ → String) → Option GatewayCommand → String → Bool → String → String → Fields → ℕ → Fields
unfolding with_command
make_result isoformat command command_id is_ok status message details now = put_details details (
    with_command command (
      field "protocolVersion" (integer (pos 1)) (
        field "id" (text (id_of command command_id)) (
          field "ok" (boolean is_ok) (
            field "status" (text status) (
              field "message" (text message)
                (field "timestamp" (text (isoformat_utc isoformat now)) end)))))))

abbrev pub as_fault : {A : Type 0} → Result Raised A → Result Fault A
as_fault (ok a) = ok a
as_fault (err e) = err (raised e)

abbrev pub no_messages_sent : Fields
no_messages_sent = field "meshMessagesSent" (integer (pos 0)) end

module _ (env : Environment) where
  abbrev pub publish_result : String → Fields → Run (Unit {0})
  publish_result command_id result = publish env (result_published command_id result)

  -- `store.remember_result`
  unfoldable pub remember : String → Fields → Run (Unit {0})
  remember command_id result = do
    now ← read_clock env
    w ← get_world
    store ←
        lift
          (as_fault (remember_result env.isoformat env.fromisoformat w.store command_id result now))
    set_store store
    save env (remembered command_id result)

  -- `_publish_and_remember`
  unfoldable pub publish_and_remember : GatewayCommand → Fields → Run (Unit {0})
  unfolding remember
  publish_and_remember c result = do
    remember c.command_id result
    try (publish_result c.command_id result) (λ e. return tt)

  -- `make_result` with a command, and `_publish_and_remember`.
  unfoldable pub respond : GatewayCommand → Bool → String → String → Fields → Run (Unit {0})
  unfolding publish_and_remember
  respond c is_ok status message details = do
    now ← read_clock env
    publish_and_remember c
        (make_result env.isoformat (some c) c.command_id is_ok status message details now)
