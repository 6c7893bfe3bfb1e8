-- ===== src/Runtime/Blackout/Safe.antt =====
-- What a blackout can report and write.
use sanlight_mesh_mqtt_gatew.Base.{ℕ, ◌≡◌, refl, sym, subst, none, some, List, [], In}
use sanlight_mesh_mqtt_gatew.Runtime.{Command, Setup, Transaction, blackout_verified, initial}
use sanlight_mesh_mqtt_gatew.Runtime.Send.{
  targets_of, start_blackout_preflight, start_next_blackout_preflight_query,
}
use sanlight_mesh_mqtt_gatew.Runtime.System.{Reach, start, later}
use sanlight_mesh_mqtt_gatew.Runtime.Blackout.{Guarded, IsOff, Reading, Safe}
use sanlight_mesh_mqtt_gatew.Runtime.Blackout.Plan.{Reading-Safe, next_query-Safe}
use sanlight_mesh_mqtt_gatew.Runtime.Blackout.Events.{step-Safe}

-- `BluezRuntime` when a blackout starts.
abbrev pub started : Setup → ℕ → Transaction
started c destination = start_blackout_preflight c (initial destination none)

module _ (c : Setup) (is_blackout : c.command ≡ Command.blackout) (destination : ℕ) where
  start-Safe : Safe (targets_of c c.destination) (started c destination)
  unfolding start_blackout_preflight start_next_blackout_preflight_query
  start-Safe =
      let t = initial destination none in
      let reading : Reading none none [] [] = record {
        no_percent = refl;
        not_restoring = refl;
        originals_read = tt;
      } in
      next_query-Safe c is_blackout
        (record t {
          blackout_targets = targets_of c c.destination;
          blackout_original_values = [];
          preflight_queue = targets_of c c.destination;
        })
        (targets_of c c.destination) (Reading-Safe refl tt refl reading) refl reading

  Reach-Safe :
      {t : Transaction} → Reach c (started c destination) t → Safe (targets_of c c.destination) t
  Reach-Safe start = start-Safe
  Reach-Safe (later {t} r e) = step-Safe c is_blackout t e (Reach-Safe r)

  -- In every state of a blackout, whatever replies, timers and statuses come and in what order: each
  -- write that was sent has the PDU of the blackout, and before it the node was read to be on and a
  -- restore snapshot was created that has the node with the value that was read.
  pub blackout_writes-Guarded :
      {t : Transaction} → Reach c (started c destination) t → Guarded t.log
  blackout_writes-Guarded r = (Reach-Safe r).guarded

  -- When a blackout ends with the report that all selected nodes are off, each of them is in the
  -- results with 0 and was read at 0.
  pub blackout_verified-IsOff :
      {t : Transaction}
      → Reach c (started c destination) t
      → (results : List (ℕ × ℕ)) (code : ℕ)
      → t.finished ≡ some (record { message = blackout_verified results; code = code })
      → (a : ℕ) → In a (targets_of c c.destination)
      → IsOff results t.log a
  blackout_verified-IsOff {t} r results code h a i =
      let s = Reach-Safe r in
      s.honest results code h a (subst (λ (l : List ℕ). In a l) (sym s.chosen) i)
