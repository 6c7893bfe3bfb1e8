-- ===== src/Runtime/Blackout.antt =====
-- The blackout of sanlight_mesh/bluez_runtime.py: what holds in every state that it can reach.
pub mod Plan
pub mod Moves
pub mod Batch
pub mod Value
pub mod Events
pub mod Safe
use sanlight_mesh_mqtt_gatew.Base.{
  ℕ, ◌≡◌, ◌≢◌, ◌⊎◌, Bool, true, false, Option, none, some, List, [], ◌∷◌, In, All,
}
use sanlight_mesh_mqtt_gatew.Runtime.{
  Purpose, query, verification, blackout_preflight, restore_preflight, Message, Finish, Effect,
  write_sent, read_sent, value_read, snapshot_created, snapshot_restored, write_recorded,
  set_max_timer, get_max_timer, set_max_retry_timer, get_max_retry_timer, Transaction,
  blackout_verified,
}

-- The vendor prefix of opcode 6 and the value 0.
abbrev pub blackout_bytes : List ℕ
blackout_bytes = 198 ∷ 139 ∷ 10 ∷ 0 ∷ []

-- A node that was read to be on, at a value that is in the snapshot.
abbrev pub Planned : List (ℕ × ℕ) → List Effect → ℕ → Type 0
Planned entries log a = (v : ℕ) × In (a, v) entries × In (value_read a v) log × (v ≢ 0)

-- What must have happened before an effect: before a write, the snapshot with the node's value.
abbrev pub Justified : Effect → List Effect → Type 0
Justified (write_sent g a destination payload) log =
    (payload ≡ blackout_bytes)
    × ((entries : List (ℕ × ℕ)) × In (snapshot_created entries) log
        × Planned entries log destination)
Justified (read_sent g a d) log = Unit
Justified (value_read a v) log = Unit
Justified (snapshot_created es) log = Unit
Justified snapshot_restored log = Unit
Justified write_recorded log = Unit
Justified (set_max_timer g a) log = Unit
Justified (get_max_timer g a) log = Unit
Justified set_max_retry_timer log = Unit
Justified get_max_retry_timer log = Unit

abbrev pub Guarded : List Effect → Type 0
Guarded [] = Unit
Guarded (e ∷ log) = Justified e log × Guarded log

-- A node that was read to be off, and is reported so.
abbrev pub IsOff : List (ℕ × ℕ) → List Effect → ℕ → Type 0
IsOff results log a = In (a, 0) results × In (value_read a 0) log

abbrev pub is_restore : Option Purpose → Bool
is_restore (some restore_preflight) = true
is_restore (some query) = false
is_restore (some verification) = false
is_restore (some blackout_preflight) = false
is_restore none = false

abbrev pub is_preflight : Option Purpose → Bool
is_preflight (some restore_preflight) = true
is_preflight (some blackout_preflight) = true
is_preflight (some query) = false
is_preflight (some verification) = false
is_preflight none = false

-- While the values are read.
pub record Reading (percent : Option ℕ) (purpose : Option Purpose) (originals : List (ℕ × ℕ))
    (log : List Effect) : Type 0 where
  pub no_percent : percent ≡ none
  pub not_restoring : is_restore purpose ≡ false
  pub originals_read : All (λ (p : ℕ × ℕ). In (value_read p.0 p.1) log) originals

-- A target is off, or still to be written.
abbrev pub Waiting : List (ℕ × ℕ) → List (ℕ × ℕ) → List Effect → ℕ → Type 0
Waiting queue results log a = IsOff results log a ⊎ In (a, 0) queue

-- The nodes of the queue are to be written 0, and every target is off or in the queue.
pub record Ready (targets : List ℕ) (queue results : List (ℕ × ℕ)) (log : List Effect)
    : Type 0 where
  pub entries : List (ℕ × ℕ)
  pub created : In (snapshot_created entries) log
  pub queued : All (λ (p : ℕ × ℕ). (p.1 ≡ 0) × Planned entries log p.0) queue
  pub progress : (a : ℕ) → In a targets → Waiting queue results log a

-- While the nodes are written: the current one is written 0, too.
pub record Writing (percent : Option ℕ) (purpose : Option Purpose) (destination : ℕ)
    (targets : List ℕ) (queue results : List (ℕ × ℕ)) (log : List Effect) : Type 0 where
  pub zero_percent : percent ≡ some 0
  pub not_preflight : is_preflight purpose ≡ false
  pub ready : Ready targets ((destination, 0) ∷ queue) results log

abbrev pub Honest : Option Finish → List ℕ → List Effect → Type 0
Honest finished targets log =
    (results : List (ℕ × ℕ)) (code : ℕ)
    → finished ≡ some (record { message = blackout_verified results; code = code })
    → (a : ℕ) → In a targets
    → IsOff results log a

pub record IsSafe (selected : List ℕ) (finished : Option Finish) (percent : Option ℕ)
    (purpose : Option Purpose) (destination : ℕ) (originals : List (ℕ × ℕ)) (targets : List ℕ)
    (queue results : List (ℕ × ℕ)) (log : List Effect) : Type 0 where
  pub chosen : targets ≡ selected
  pub guarded : Guarded log
  pub honest : Honest finished targets log
  pub phase :
      finished ≡ none
      → Reading percent purpose originals log
        ⊎ Writing percent purpose destination targets queue results log

-- The invariant of a blackout of the selected nodes.
abbrev pub Safe : List ℕ → Transaction → Type 0
Safe selected t =
    IsSafe selected t.finished t.current_brightness_percent t.get_max_purpose
      t.current_brightness_destination t.blackout_original_values t.blackout_targets
      t.batch_write_queue t.batch_write_results t.log
