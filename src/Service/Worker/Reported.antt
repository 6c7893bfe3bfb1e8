-- ===== src/Service/Worker/Reported.antt =====
-- What the worker of sanlight_mesh/gateway_service.py does with the readings of an execution: it stores
-- them, publishes the nodes, and puts them into the result.
use sanlight_mesh_mqtt_gatew.Base.{
  ℕ, pos, Bool, true, false, not, ◌&&◌, ◌||◌, String, Option, none, some, List, [], ◌∷◌, ◌++◌,
  if◌then◌else◌, Result, ok, err, ltb, ◌==◌, str_eq, codes, filter,
}
use sanlight_mesh_mqtt_gatew.Value.{
  Value, null, boolean, integer, float, text, array, object, Fields, end, field, get, value_or,
}
use sanlight_mesh_mqtt_gatew.GatewayProtocol.{
  Action, set_max, refresh, read_daylight, blackout, restore_blackout, sync_clock, set_clock,
  refresh_gateway_info, Target, all_nodes, latest, gateway, node, GatewayCommand,
}
use sanlight_mesh_mqtt_gatew.GatewayProtocol.Decode.{has, member}
use sanlight_mesh_mqtt_gatew.GatewayStore.{GatewayStore}
use sanlight_mesh_mqtt_gatew.GatewayStore.Dict.{put}
use sanlight_mesh_mqtt_gatew.Protocol.Live.{LiveStatus}
use sanlight_mesh_mqtt_gatew.Protocol.Daylight.{DaylightStatus}
use sanlight_mesh_mqtt_gatew.GatewayStore.Node.{
  OutOfRange, CachedNodeState, get_node, update_node, update_live, update_daylight,
  record_daylight_failure, clear_live, node_record,
}
use sanlight_mesh_mqtt_gatew.Service.{
  Config, ExecutionResult, store_saved, node_published, Fault, out_of_range, Environment,
}
use sanlight_mesh_mqtt_gatew.Service.Run.{
  Run, ◌>>=◌, ◌>>◌, return, lift, try, get_world, set_store, for_each, read_clock, save, publish,
}
use sanlight_mesh_mqtt_gatew.Service.Report.{target_text}

abbrev is_text : Value → String → Bool
is_text (text t) s = str_eq t s
is_text null s = false
is_text (boolean b) s = false
is_text (integer n) s = false
is_text (float f) s = false
is_text (array xs) s = false
is_text (object fs) s = false

-- `details.get("failureClass") == "mesh-no-response"`
abbrev pub is_mesh_no_response : Fields → Bool
is_mesh_no_response details =
    is_text (value_or (get details "failureClass") null) "mesh-no-response"

abbrev pub keys : {A : Type 0} → List (String × A) → List String
keys [] = []
keys ((k, a) ∷ r) = k ∷ keys r

-- `tuple(self.nodes) if command.target == "all" else (command.target,)`
abbrev pub expected_nodes : List String → Target → List String
expected_nodes nodes all_nodes = nodes
expected_nodes nodes latest = target_text latest ∷ []
expected_nodes nodes gateway = target_text gateway ∷ []
expected_nodes nodes (node a) = target_text (node a) ∷ []

-- The nodes whose live reading is out of date after the command, unless it was read.
unfoldable pub expected_live : List String → GatewayCommand → ExecutionResult → Action → List String
expected_live nodes c execution refresh = expected_nodes nodes c.target
expected_live nodes c execution sync_clock = expected_nodes nodes c.target
expected_live nodes c execution set_clock = expected_nodes nodes c.target
expected_live nodes c execution restore_blackout =
    if execution.is_ok then nodes else keys execution.reported
expected_live nodes c execution set_max = keys execution.reported
expected_live nodes c execution blackout = keys execution.reported
expected_live nodes c execution read_daylight = []
expected_live nodes c execution refresh_gateway_info = []

abbrev as_range_fault : Result OutOfRange GatewayStore → Result Fault GatewayStore
as_range_fault (ok store) = ok store
as_range_fault (err e) = err out_of_range

abbrev error_or : String → String → String
error_or String.[] fallback = fallback
error_or (String.◌∷◌ c s) fallback = String.◌∷◌ c s

abbrev text_error : Value → String
text_error (text s) = error_or s "no daylight status was returned"
text_error null = "no daylight status was returned"
text_error (boolean b) = "no daylight status was returned"
text_error (integer n) = "no daylight status was returned"
text_error (float f) = "no daylight status was returned"
text_error (array xs) = "no daylight status was returned"
text_error (object fs) = "no daylight status was returned"

-- The error of the execution for an address, if it has a text for it.
unfoldable pub daylight_error : Value → String → String
daylight_error (object errors) address = text_error (value_or (get errors address) null)
daylight_error null address = "no daylight status was returned"
daylight_error (boolean b) address = "no daylight status was returned"
daylight_error (integer n) address = "no daylight status was returned"
daylight_error (float f) address = "no daylight status was returned"
daylight_error (text s) address = "no daylight status was returned"
daylight_error (array xs) address = "no daylight status was returned"

abbrev is_read_daylight : Action → Bool
is_read_daylight read_daylight = true
is_read_daylight set_max = false
is_read_daylight refresh = false
is_read_daylight blackout = false
is_read_daylight restore_blackout = false
is_read_daylight sync_clock = false
is_read_daylight set_clock = false
is_read_daylight refresh_gateway_info = false

-- The order of texts by their code points.
abbrev codes_before : List ℕ → List ℕ → Bool
codes_before [] [] = false
codes_before [] (y ∷ ys) = true
codes_before (x ∷ xs) [] = false
codes_before (x ∷ xs) (y ∷ ys) = ltb x y || (x == y && codes_before xs ys)

-- `sorted(set(addresses))`
unfoldable pub insert_address : String → List String → List String
insert_address a [] = a ∷ []
insert_address a (b ∷ bs) =
    let rest = insert_address a bs in
    if str_eq a b then b ∷ bs else if codes_before (codes a) (codes b) then a ∷ b ∷ bs else b ∷ rest

unfoldable pub sorted_addresses : List String → List String
unfolding insert_address
sorted_addresses [] = []
sorted_addresses (a ∷ r) = insert_address a (sorted_addresses r)

abbrev pub has_live : Option Fields → Bool
has_live none = false
has_live (some fields) =
    has fields "lampTimeMs" || has fields "liveBrightnessRaw" || has fields "liveVerifiedAt"

abbrev known : {A : Type 0} → List String → List (String × A) → List (String × A)
known nodes readings = filter (λ p. member p.0 nodes) readings

abbrev number_document : List (String × ℕ) → Fields
number_document [] = end
number_document ((a, v) ∷ r) = field a (integer (pos v)) (number_document r)

abbrev documents : {A : Type 0} → (A → Value) → List (String × A) → Fields
documents document [] = end
documents document ((a, v) ∷ r) = field a (document v) (documents document r)

abbrev put_documents : String → Fields → Fields → Fields
put_documents key end fields = fields
put_documents key (field k v fs) fields = put fields key (object (field k v fs))

-- `{**fields, **details}`
abbrev put_all : Fields → Fields → Fields
put_all fields end = fields
put_all fields (field k v fs) = put_all (put fields k v) fs

module _ (env : Environment) where
  -- A change of the store, which is then saved.
  abbrev pub change_store : (GatewayStore → GatewayStore) → Run (Unit {0})
  change_store f = do w ← get_world; set_store (f w.store); save env store_saved

  unfoldable pub store_value : String × ℕ → Run (Unit {0})
  store_value (address, value) = do
    now ← read_clock env
    w ← get_world
    store ← lift (as_range_fault (update_node env.isoformat w.store address (pos value) now))
    set_store store
    save env store_saved

  unfoldable pub store_live : String × LiveStatus → Run (Unit {0})
  store_live (address, status) = do
    now ← read_clock env
    change_store (λ store. update_live env.isoformat store address status now)

  unfoldable pub store_daylight : ℕ → String × DaylightStatus → Run (Unit {0})
  store_daylight now (address, status) =
      change_store (λ store.
        update_daylight env.isoformat env.hex env.parse_error_text store address status now)

  unfoldable pub store_failure : ExecutionResult → ℕ → String → Run (Unit {0})
  store_failure execution now address = change_store (λ store.
      record_daylight_failure env.isoformat store address
        (daylight_error (value_or (get execution.details "errors") (object end)) address) now)

  -- `clear_live`, which saves only if the node had a live reading.
  unfoldable pub clear_node : String → Run (Unit {0})
  clear_node address = λ w.
      if has_live (node_record w.store address)
      then change_store (λ store. clear_live store address) w
      else (w, ok tt)

  -- The five loops, and the addresses to publish.
  unfoldable pub record_states : Config → GatewayCommand → ExecutionResult → Run (List String)
  record_states config c execution = do
    for_each (known config.nodes execution.reported) store_value
    for_each (known config.nodes execution.live_reported) store_live
    now ← read_clock env
    for_each (known config.nodes execution.daylight_reported) (store_daylight now)
    let failed =
        if is_read_daylight c.action
        then filter
            (λ a. member a config.nodes && not (member a (keys execution.daylight_reported)))
            (expected_nodes config.nodes c.target)
        else []
    for_each failed (store_failure execution now)
    let stale =
        filter (λ a. member a config.nodes && not (member a (keys execution.live_reported)))
          (expected_live config.nodes c execution c.action)
    for_each stale clear_node
    return (
        sorted_addresses (
          keys (known config.nodes execution.reported)
          ++ keys (known config.nodes execution.live_reported)
          ++ keys (known config.nodes execution.daylight_reported)
          ++ failed
          ++ stale))

  abbrev pub publish_state : String → Option CachedNodeState → Run (Unit {0})
  publish_state address none = return tt
  publish_state address (some state) = publish env (node_published address state)

  -- `publish_node_state`, with the state that the document shows.
  unfoldable pub publish_node_state : String → Run (Unit {0})
  publish_node_state address =
      λ w. publish_state address (get_node env.fromisoformat env.utf8 env.fromhex w.store address) w

  unfoldable pub publish_states : List String → Run (Unit {0})
  publish_states addresses =
      for_each addresses (λ address. try (publish_node_state address) (λ e. return tt))

  -- The details of the result.
  unfoldable pub result_details : ExecutionResult → Fields
  result_details execution =
      put_all
        (put_documents "daylightReported"
          (documents env.daylight_document execution.daylight_reported)
          (put_documents "liveReported" (documents env.live_document execution.live_reported)
            (field "reported" (object (number_document execution.reported)) end)))
        execution.details
