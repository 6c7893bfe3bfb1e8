-- ===== src/Service.antt =====
-- The gateway service of sanlight_mesh/gateway_service.py: what its methods share. A method is a
-- function of the `World`: the state of `SanlightMqttGateway` and what has been done so far. What the
-- outside does next, a clock, a file, the broker, other threads or the executor, is the
-- `Environment`'s answer to what has been done so far. Its children are Run, the methods' exceptions
-- and states; Report, results; Message, the MQTT callback; Worker, the worker thread; the proofs.
pub mod Run
pub mod Report
pub mod Message
pub mod Worker
pub mod Accepted
pub mod Logged
pub mod Slot
pub mod Released
use sanlight_mesh_mqtt_gatew.Base.{ℕ, Bool, String, Option, List}
use sanlight_mesh_mqtt_gatew.Value.{Value, Fields}
use sanlight_mesh_mqtt_gatew.GatewayProtocol.{GatewayCommand, Action, Raised, ProtocolError, Stamp}
use sanlight_mesh_mqtt_gatew.GatewayProtocol.Decode.{Loads}
use sanlight_mesh_mqtt_gatew.CommandQueue.{CommandQueue}
use sanlight_mesh_mqtt_gatew.GatewayStore.{GatewayStore}
use sanlight_mesh_mqtt_gatew.GatewayStore.Node.{CachedNodeState}
use sanlight_mesh_mqtt_gatew.Protocol.Opcode.{ValueError}
use sanlight_mesh_mqtt_gatew.Protocol.Live.{LiveStatus}
use sanlight_mesh_mqtt_gatew.Protocol.Daylight.{DaylightStatus}

-- The settings, and `nodes`: the addresses as four upper-case hexadecimal digits. The window is in
-- milliseconds.
pub record Config : Type 0 where
  pub command_topic : String
  pub nodes : List String
  pub coalesce_window : ℕ
  pub state_fresh_seconds : ℕ

pub record IncomingMessage : Type 0 where
  pub topic : String
  pub payload : List ℕ
  pub retain : Bool

-- `ExecutionResult` of sanlight_mesh/gateway_executor.py
pub record ExecutionResult : Type 0 where
  pub is_ok : Bool
  pub status : String
  pub message : String
  pub reported : List (String × ℕ)
  pub details : Fields
  pub live_reported : List (String × LiveStatus)
  pub daylight_reported : List (String × DaylightStatus)

-- What the service does, the latest first. A write of the store's file holds what it was for.
pub data Effect : Type 0 where
  clock_read monotonic_read : Effect
  waited : ℕ → Effect
  marked executed : GatewayCommand → Effect
  remembered : String → Fields → Effect
  store_saved save_failed publish_failed sequence_read : Effect
  result_published : String → Fields → Effect
  node_published : String → CachedNodeState → Effect
  info_published : Fields → Fields → Effect

-- The exceptions.
pub data Fault : Type 0 where
  raised : Raised → Fault
  queue_full save_error publish_error execution_error out_of_range : Fault

pub record World : Type 0 where
  pub store : GatewayStore
  pub queue : CommandQueue
  pub last_write_monotonic : ℕ
  pub sequence_state : Fields
  pub log : List Effect

-- Python's library, the texts of errors, the documents of readings, and the outside. Times are in
-- microseconds.
pub record Environment : Type 0 where
  pub fromisoformat : List ℕ → Option Stamp
  pub isoformat : ℕ → String
  pub utf8 : List ℕ → Option (List ℕ)
  pub fromhex : String → Option (List ℕ)
  pub hex : List ℕ → String
  pub loads : List ℕ → Loads
  pub error_text : ProtocolError → String
  pub parse_error_text : Option ValueError → String
  pub fault_text : Fault → String
  -- `str` of an `int`
  pub number_text : ℕ → String
  pub live_document : LiveStatus → Value
  pub daylight_document : DaylightStatus → Value
  pub utc_now : List Effect → ℕ
  pub monotonic : List Effect → ℕ
  pub can_save : List Effect → Bool
  pub can_publish : List Effect → Bool
  -- whether the service is stopped while it waits
  pub stopped : List Effect → ℕ → Bool
  -- what other threads do to the queue while it is drained
  pub meanwhile : List Effect → CommandQueue → CommandQueue
  -- `none` if `CliCommandExecutor.execute` raises
  pub execute : List Effect → GatewayCommand → Option ExecutionResult
  pub sender_sequence_state : List Effect → Option Fields
