-- ===== src/Tests/SequenceRuns.antt =====
-- Tests of the model of sanlight_mesh/sequence_recovery.py.
use sanlight_mesh_mqtt_gatew.Base.{ℕ, ◌≡◌, refl, pos, Bool, true, false, List, [], ◌∷◌, ok}
use sanlight_mesh_mqtt_gatew.Value.{text, object, integer, Fields, end, field}
use sanlight_mesh_mqtt_gatew.GatewayStore.Dict.{put}
use sanlight_mesh_mqtt_gatew.SequenceRecovery.{
  replaced, holds, Effect, backed_up, written, stop_requested, start_requested, Machine,
  Environment, validate_recovery_target, load_node, parse_unicast, parse_sequence, check_loaded,
  check_node, write_node, advance_checked, advance_node_sequence, restart, while_stopped,
  stop_and_advance, may_recover, recover_if, recover_sender_sequence,
}
use sanlight_mesh_mqtt_gatew.SequenceRecovery.Advance.{Outcome, advance_node_sequence-Outcome}

abbrev node : ℕ → Fields
node n = field "unicastAddress" (text "0005") (field "sequenceNumber" (integer (pos n)) end)

abbrev machine : Machine
machine = record { file = holds (object (node 100)); log = [] }

-- The service is active unless it was stopped last.
abbrev active : List Effect → Bool
active [] = true
active (stop_requested ∷ l) = false
active (start_requested ∷ l) = true
active (backed_up n ∷ l) = false
active (written n ∷ l) = false

abbrev environment : Environment
environment = record {
  hex_int = λ v. ok (pos 5);
  to_int = λ v. ok (pos 100);
  can_backup = λ l. true;
  write = λ l. replaced;
  is_root = true;
  systemctl_succeeds = λ l. true;
  is_active = active;
  becomes_ready = λ l. true;
}

run_recovery : (recover_sender_sequence environment 5 (pos 500) machine).0 ≡ record {
  file = holds (object (node 500));
  log = start_requested ∷ written (node 500) ∷ backed_up (node 100) ∷ stop_requested ∷ [];
}
unfolding validate_recovery_target load_node parse_unicast parse_sequence check_loaded check_node
    write_node advance_checked advance_node_sequence restart while_stopped stop_and_advance
    may_recover recover_if recover_sender_sequence put
run_recovery = refl

advance_node_sequence-Outcome_example :
    Outcome environment 5 (pos 500) machine (advance_node_sequence environment 5 (pos 500) machine)
advance_node_sequence-Outcome_example =
    advance_node_sequence-Outcome environment 5 (pos 500) machine
