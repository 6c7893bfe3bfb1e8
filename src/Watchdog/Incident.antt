-- ===== src/Watchdog/Incident.antt =====
-- `eligible_incident` and `recovery_history` of sanlight_mesh/mesh_watchdog.py. The result is `ok`
-- where the source returns `True`, and otherwise the reason that it returns, or what it raises.
use sanlight_mesh_mqtt_gatew.Base.{
  ℕ, ◌+◌, ◌-◌, ◌*◌, pos, negsuc, Bool, true, false, String, Option, none, some, List, [], ◌∷◌, leb,
  ltb, if◌then◌else◌, str_eq, codes, length, Result, ok, err, ◌>>=◌, ◌>>◌, require, raise_if, ◌||◌,
}
use sanlight_mesh_mqtt_gatew.Value.{
  Value, null, boolean, integer, float, text, array, object, Items, nil, cons, Fields, get,
  value_or,
}
use sanlight_mesh_mqtt_gatew.GatewayProtocol.{
  Raised, type_error, overflow_error, second, add_seconds, Stamp, naive, aware, to_utc, replace_z,
}
use sanlight_mesh_mqtt_gatew.GatewayProtocol.Decode.{is_text}
use sanlight_mesh_mqtt_gatew.Watchdog.{WatchdogConfig}

pub data Reason : Type 0 where
  no_failure no_metadata not_all_lamps not_read_only bad_failure_time no_success : Reason
  in_future too_old success_too_old probe_cooldown recovery_cooldown recovery_limit : Reason

pub data Stop : Type 0 where
  skipped : Reason → Stop
  raised : Raised → Stop

-- A call that raises inside one that can also be skipped.
abbrev pub lift {ℓ} : {A : Type ℓ} → Result Raised A → Result Stop A
lift (ok a) = ok a
lift (err e) = err (raised e)

abbrev pub or_skip {ℓ} : {A : Type ℓ} → Option A → Reason → Result Stop A
or_skip none r = err (skipped r)
or_skip (some a) r = ok a

-- `not isinstance(count, bool) and isinstance(count, int) and count >= 1`
abbrev pub is_count : Value → Bool
is_count (integer (pos n)) = leb 1 n
is_count (integer (negsuc n)) = false
is_count null = false
is_count (boolean b) = false
is_count (float f) = false
is_count (text s) = false
is_count (array xs) = false
is_count (object fs) = false

abbrev pub as_mapping : Value → Option Fields
as_mapping (object fs) = some fs
as_mapping null = none
as_mapping (boolean b) = none
as_mapping (integer n) = none
as_mapping (float f) = none
as_mapping (text s) = none
as_mapping (array xs) = none

-- `action in READ_ONLY_ACTIONS`, which raises for a value that cannot be hashed.
abbrev pub in_read_only_actions : Value → Result Raised Bool
in_read_only_actions (text s) = ok (str_eq s "refresh" || str_eq s "read-daylight")
in_read_only_actions null = ok false
in_read_only_actions (boolean b) = ok false
in_read_only_actions (integer n) = ok false
in_read_only_actions (float f) = ok false
in_read_only_actions (array xs) = err type_error
in_read_only_actions (object fs) = err type_error

-- `time - timedelta(seconds=s)`
unfoldable pub sub_seconds : ℕ → ℕ → Result Raised ℕ
sub_seconds time s = if leb (s * second) time then ok (time - s * second) else err overflow_error

-- Whether a time, if there is one, is less than `s` seconds ago.
abbrev pub cooling : Option ℕ → ℕ → ℕ → Bool
cooling none now s = false
cooling (some t) now s = ltb now (t + s * second)

-- `parsed is not None and cutoff <= parsed <= now + timedelta(seconds=30)`
unfoldable pub in_window : Option ℕ → ℕ → ℕ → Result Raised Bool
in_window none cutoff now = ok false
in_window (some t) cutoff now =
    if leb cutoff t then (add_seconds now 30 >>= λ horizon. ok (leb t horizon)) else ok false

-- `result.append(parsed)`, if it is kept.
abbrev pub keep : Bool → Option ℕ → List ℕ → List ℕ
keep true (some t) ts = t ∷ ts
keep true none ts = ts
keep false parsed ts = ts

-- `sorted`
unfoldable pub insert : ℕ → List ℕ → List ℕ
insert t [] = t ∷ []
insert t (x ∷ xs) = let rest = insert t xs in if leb t x then t ∷ x ∷ xs else x ∷ rest

unfoldable pub sorted : List ℕ → List ℕ
sorted [] = []
sorted (x ∷ xs) = insert x (sorted xs)

stamp_or_none : Option Stamp → Result Raised (Option ℕ)
stamp_or_none none = ok none
stamp_or_none (some naive) = ok none
stamp_or_none (some (aware t)) = to_utc t >>= λ u. ok (some u)

module _ (fromisoformat : List ℕ → Option Stamp) where
  -- `_parse_timestamp`
  unfoldable pub parse_time : Value → Result Raised (Option ℕ)
  unfolding stamp_or_none
  parse_time (text s) =
      if str_eq s "" then ok none else stamp_or_none (fromisoformat (replace_z (codes s)))
  parse_time null = ok none
  parse_time (boolean b) = ok none
  parse_time (integer n) = ok none
  parse_time (float f) = ok none
  parse_time (array xs) = ok none
  parse_time (object fs) = ok none

  -- The loop of `recovery_history`.
  unfoldable pub recent : Items → ℕ → ℕ → Result Raised (List ℕ)
  recent nil cutoff now = ok []
  recent (cons v vs) cutoff now = do
    parsed ← parse_time v
    kept ← in_window parsed cutoff now
    rest ← recent vs cutoff now
    ok (keep kept parsed rest)

  unfoldable pub history_of : Value → ℕ → ℕ → Result Raised (List ℕ)
  history_of (array values) now window_seconds = do
    cutoff ← sub_seconds now window_seconds
    result ← recent values cutoff now
    ok (sorted result)
  history_of null now window_seconds = ok []
  history_of (boolean b) now window_seconds = ok []
  history_of (integer n) now window_seconds = ok []
  history_of (float f) now window_seconds = ok []
  history_of (text s) now window_seconds = ok []
  history_of (object fs) now window_seconds = ok []

  unfoldable pub recovery_history : Fields → ℕ → ℕ → Result Raised (List ℕ)
  unfolding history_of
  recovery_history state now window_seconds =
      history_of (value_or (get state "recoveryHistory") (array nil)) now window_seconds

  -- The field of a document as a time.
  abbrev pub time_field : Fields → String → Result Stop (Option ℕ)
  time_field document key = lift (parse_time (value_or (get document key) null))

  unfoldable pub eligible_incident : Fields → Fields → WatchdogConfig → ℕ → Result Stop (Unit {0})
  eligible_incident mesh_health watchdog_state config now = do
    require
        (is_count
          (value_or (get mesh_health "consecutiveCompleteNoResponseCommands") (integer (pos 0))))
        (skipped no_failure)
    command ←
        or_skip (as_mapping (value_or (get mesh_health "lastCompleteNoResponseCommand") null))
          no_metadata
    require (is_text (value_or (get command "target") null) "all") (skipped not_all_lamps)
    read_only ← lift (in_read_only_actions (value_or (get command "action") null))
    require read_only (skipped not_read_only)
    failed ← time_field mesh_health "lastCompleteNoResponseAt"
    successful ← time_field mesh_health "lastSuccessfulResponseAt"
    failed_at ← or_skip failed bad_failure_time
    successful_at ← or_skip successful no_success
    horizon ← lift (add_seconds now 30)
    raise_if (ltb horizon failed_at) (skipped in_future)
    raise_if (ltb (failed_at + config.incident_max_age_seconds * second) now) (skipped too_old)
    raise_if (ltb (successful_at + config.recent_success_seconds * second) failed_at)
        (skipped success_too_old)
    last_probe ← time_field watchdog_state "lastProbeAt"
    raise_if (cooling last_probe now config.probe_cooldown_seconds) (skipped probe_cooldown)
    last_recovery ← time_field watchdog_state "lastRecoveryAt"
    raise_if (cooling last_recovery now config.recovery_cooldown_seconds)
        (skipped recovery_cooldown)
    history ← lift (recovery_history watchdog_state now config.recovery_window_seconds)
    raise_if (leb config.max_recoveries_in_window (length history)) (skipped recovery_limit)
