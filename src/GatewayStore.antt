-- ===== src/GatewayStore.antt =====
-- The persistent cache of sanlight_mesh/gateway_store.py: its document, what is pruned, results and
-- commands in flight, and the health of the mesh. Its children are Fields, Python's `dict` of JSON
-- values, and the proofs.
pub mod Dict
pub mod Pruned
pub mod Health
pub mod Node
use sanlight_mesh_mqtt_gatew.Base.{
  ℕ, zero, ◌+◌, suc, ℤ, pos, negsuc, Bool, true, false, not, ◌&&◌, ◌||◌, String, Option, none, some,
  List, [], ◌∷◌, leb, if◌then◌else◌, take, Result, ok, err, ◌>>=◌, ◌>>◌, codes, map,
}
use sanlight_mesh_mqtt_gatew.Value.{
  Value, null, boolean, integer, float, text, array, object, Fields, end, field, get, value_or,
}
use sanlight_mesh_mqtt_gatew.GatewayStore.Dict.{put, pop}
use sanlight_mesh_mqtt_gatew.GatewayProtocol.{Raised, Stamp}
use sanlight_mesh_mqtt_gatew.GatewayProtocol.Decode.{parse_timestamp}
use sanlight_mesh_mqtt_gatew.Watchdog.{begins_with}
use sanlight_mesh_mqtt_gatew.Watchdog.Incident.{sub_seconds, as_mapping}

pub record GatewayStore : Type 0 where
  pub dedup_ttl_seconds : ℕ
  pub dedup_max_entries : ℕ
  pub processed : Fields
  pub inflight : Fields
  pub nodes : Fields
  pub mesh_health : Fields

-- `text.replace("+00:00", "Z")`; the number is how many characters of a match are left.
unfoldable pub replace_offset : ℕ → String → String
replace_offset n String.[] = String.[]
replace_offset (suc n) (String.◌∷◌ c s) = replace_offset n s
replace_offset zero (String.◌∷◌ c s) =
    let matched = replace_offset 5 s in
    let other = replace_offset 0 s in
    if begins_with (codes "+00:00") (codes (String.◌∷◌ c s))
    then String.◌∷◌ "Z" matched
    else String.◌∷◌ c other

-- A processed command that is kept: its identifier, its record and the time in it.
pub record Processed : Type 0 where
  pub command_id : String
  pub result_record : Fields
  pub timestamp : ℕ

-- A stable `sort` by the time, the newest first.
unfoldable pub insert : Processed → List Processed → List Processed
insert p [] = p ∷ []
insert p (q ∷ qs) =
    let rest = insert p qs in if leb q.timestamp p.timestamp then p ∷ q ∷ qs else q ∷ rest

unfoldable pub sort : List Processed → List Processed
sort [] = []
sort (p ∷ ps) = insert p (sort ps)

unfoldable pub as_fields : List Processed → Fields
as_fields [] = end
as_fields (p ∷ ps) = field p.command_id (object p.result_record) (as_fields ps)

-- The number of the field, or 0 unless it is an integer that is not negative.
abbrev pub count_or_zero : Value → ℕ
count_or_zero (integer (pos n)) = n
count_or_zero (integer (negsuc n)) = 0
count_or_zero null = 0
count_or_zero (boolean b) = 0
count_or_zero (float f) = 0
count_or_zero (text s) = 0
count_or_zero (array xs) = 0
count_or_zero (object fs) = 0

-- What a stored value contributes to `valid`: it is skipped if it is no object, if its time cannot be
-- read, whatever is raised, if it is too old, and if it has no result.
abbrev pub is_object : Value → Bool
is_object v = elim (as_mapping v) [ none ↦ false | some fs ↦ true ]

module _ (fromisoformat : List ℕ → Option Stamp) where
  abbrev pub completed_at : Fields → Result Raised ℕ
  completed_at result_record =
      parse_timestamp fromisoformat (value_or (get result_record "completedAt") null)

  with_time : String → Fields → ℕ → Result Raised ℕ → List Processed → List Processed
  with_time command_id result_record cutoff (err e) others = others
  with_time command_id result_record cutoff (ok t) others =
      if leb cutoff t && is_object (value_or (get result_record "result") null)
      then record { command_id = command_id; result_record = result_record; timestamp = t } ∷ others
      else others

  with_record : String → Option Fields → ℕ → List Processed → List Processed
  unfolding with_time
  with_record command_id none cutoff others = others
  with_record command_id (some r) cutoff others =
      with_time command_id r cutoff (completed_at r) others

  -- The loop over the processed commands.
  unfoldable pub valid : Fields → ℕ → List Processed
  unfolding with_record with_time
  valid end cutoff = []
  valid (field command_id v fs) cutoff =
      with_record command_id (as_mapping v) cutoff (valid fs cutoff)

  unfoldable pub prune : GatewayStore → ℕ → Result Raised GatewayStore
  prune store current = do
    cutoff ← sub_seconds current store.dedup_ttl_seconds
    ok (record store {
      processed = as_fields (take store.dedup_max_entries (sort (valid store.processed cutoff)));
    })

module _ (isoformat : ℕ → String) where
  -- `isoformat_utc`, of sanlight_mesh/gateway_protocol.py
  abbrev pub isoformat_utc : ℕ → String
  isoformat_utc t = replace_offset 0 (isoformat t)

  unfoldable pub remember_result :
      (List ℕ → Option Stamp) → GatewayStore → String → Fields → ℕ → Result Raised GatewayStore
  remember_result fromisoformat store command_id result current =
      prune fromisoformat
        (record store {
          processed = put store.processed command_id (
              object (
                field "completedAt" (text (isoformat_utc current))
                  (field "result" (object result) end)));
          inflight = pop store.inflight command_id;
        })
        current

  unfoldable pub mark_inflight : GatewayStore → String → Fields → ℕ → GatewayStore
  mark_inflight store command_id command current = record store {
    inflight = put store.inflight command_id (
        object (
          field "startedAt" (text (isoformat_utc current)) (field "command" (object command) end)));
  }

  -- The two branches of `record_mesh_outcome` on the document of the mesh's health.
  unfoldable pub after_response : Fields → ℕ → Fields
  after_response health current =
      pop
        (pop
          (put (put health "lastSuccessfulResponseAt" (text (isoformat_utc current)))
            "consecutiveCompleteNoResponseCommands" (integer (pos 0)))
          "lastCompleteNoResponseAt")
        "lastCompleteNoResponseCommand"

  unfoldable pub after_no_response : Fields → String → String → String → ℕ → Fields
  after_no_response health command_id action target current =
      put
        (put
          (put health "consecutiveCompleteNoResponseCommands" (
            integer (
              pos (
                count_or_zero
                  (value_or (get health "consecutiveCompleteNoResponseCommands") (integer (pos 0)))
                + 1))))
          "lastCompleteNoResponseAt" (text (isoformat_utc current)))
        "lastCompleteNoResponseCommand"
        (object (
          field "id" (text command_id)
            (field "action" (text action) (field "target" (text target) end))))

  unfoldable pub record_mesh_outcome :
      GatewayStore → String → String → String → Bool → Bool → ℕ → GatewayStore
  record_mesh_outcome store command_id action target response_observed complete_no_response
        current =
      if not response_observed && not complete_no_response then store else record store {
        mesh_health =
            if response_observed
            then after_response store.mesh_health current
            else after_no_response store.mesh_health command_id action target current;
      }

unfoldable pub get_result : GatewayStore → String → Option Fields
get_result store command_id = elim (as_mapping (value_or (get store.processed command_id) null)) [
  | none ↦ none
  | some r ↦ as_mapping (value_or (get r "result") null)
]

unfoldable pub get_inflight : GatewayStore → String → Option Fields
get_inflight store command_id = as_mapping (value_or (get store.inflight command_id) null)
