-- ===== src/SequenceRecovery/Restart.antt =====
-- `recover_sender_sequence` of sanlight_mesh/sequence_recovery.py and the Mesh service.
use sanlight_mesh_mqtt_gatew.Base.{ℕ, ℤ, ◌≡◌, ◌⊎◌, ◌∷◌, Result, err}
use sanlight_mesh_mqtt_gatew.SequenceRecovery.{
  Error, backed_up, stop_requested, start_requested, stop_failed, Machine, RecoveryResult,
  Environment,
}
use sanlight_mesh_mqtt_gatew.SequenceRecovery.Advance.{Stored, Changed, IsTarget}
use sanlight_mesh_mqtt_gatew.Value.{Fields}

-- The machine after the last call, which starts the service.
abbrev pub with_start : Machine → Machine
with_start n = record n { log = start_requested ∷ n.log }

module _ (env : Environment) (u : ℕ) (minimum : ℤ) where
  -- What was done while the service was stopped.
  abbrev pub Inside : Machine → Machine → Type 0
  Inside stopped inner =
      ((inner.file ≡ stopped.file)
        × ((inner.log ≡ stopped.log)
            ⊎ ((node : Fields) × (inner.log ≡ backed_up node ∷ stopped.log))))
      ⊎ ((node : Fields) × (previous : ℕ) × (target : ℕ) × IsTarget env minimum target
          × Stored env stopped u node previous
          × Changed env stopped inner node previous target)

  -- Nothing was done; or the service was told to stop, which failed; or it was stopped, and the last call
  -- is the start.
  abbrev pub Recovered : Machine → Machine × Result Error RecoveryResult → Type 0
  Recovered m (n, r) =
      (n ≡ m)
      ⊎ ((n ≡ record m { log = stop_requested ∷ m.log }) × (r ≡ err stop_failed))
      ⊎ ((inner : Machine) × Inside (record m { log = stop_requested ∷ m.log }) inner
          × (n ≡ with_start inner))
