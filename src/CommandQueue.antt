-- ===== src/CommandQueue.antt =====
-- The bounded command queue of sanlight_mesh/gateway_queue.py. `queue.Queue` is the list of its
-- items, and `_pending_ids` a list without repetitions. The lock makes `put`, `done`, `contains`
-- and the last block of `coalesce_set_max` atomic; the other calls of that method are not under it.
pub mod Select
pub mod Count
pub mod Tracked
pub mod Lost
use sanlight_mesh_mqtt_gatew.Base.{
  ℕ, zero, suc, ◌+◌, ◌≤◌, ◌<◌, Bool, true, false, not, ◌&&◌, ◌||◌, String, Option, none, some, List,
  [], ◌∷◌, ◌++◌, length, ltb, leb, ◌==◌, if◌then◌else◌, str_eq, filter,
}
use sanlight_mesh_mqtt_gatew.GatewayProtocol.{
  Action, set_max, refresh, read_daylight, blackout, restore_blackout, sync_clock, set_clock,
  refresh_gateway_info, Target, all_nodes, latest, gateway, node, GatewayCommand,
}

pub record SupersededCommand : Type 0 where
  pub command : GatewayCommand
  pub replacement_id : String

pub record CommandQueue : Type 0 where
  pub max_size : ℕ
  pub items : List GatewayCommand
  pub pending_ids : List String

abbrev pub contains_id : List String → String → Bool
contains_id [] s = false
contains_id (x ∷ xs) s = str_eq x s || contains_id xs s

-- `set.add` and `set.discard`
unfoldable pub add_id : String → List String → List String
add_id s xs = if contains_id xs s then xs else s ∷ xs

unfoldable pub discard : String → List String → List String
discard s xs = filter (λ x. not (str_eq x s)) xs

-- The test of `put_nowait`: a bound of zero is none.
unfoldable pub is_full : CommandQueue → Bool
is_full q = ltb 0 q.max_size && leb q.max_size (length q.items)

abbrev pub append_item : CommandQueue → GatewayCommand → CommandQueue
append_item q c = record q { items = q.items ++ c ∷ [] }

-- `queue.Full`, or the result.
pub data Put : Type 0 where
  full : Put
  returned : Bool → Put

unfoldable pub put : CommandQueue → GatewayCommand → CommandQueue × Put
put q c =
    if contains_id q.pending_ids c.command_id
    then (q, returned false)
    else if is_full q
    then (q, full)
    else (
      record q { items = q.items ++ c ∷ []; pending_ids = add_id c.command_id q.pending_ids },
      returned true,
    )

-- `get`, which waits while there is no item.
unfoldable pub get : CommandQueue → Option (GatewayCommand × CommandQueue)
get q = elim q.items [ [] ↦ none | c ∷ cs ↦ some (c, record q { items = cs }) ]

unfoldable pub done : CommandQueue → GatewayCommand → CommandQueue
done q c = record q { pending_ids = discard c.command_id q.pending_ids }

unfoldable pub contains : CommandQueue → String → Bool
contains q id = contains_id q.pending_ids id

unfoldable pub size : CommandQueue → ℕ
size q = length q.items

abbrev pub is_set_max : Action → Bool
is_set_max set_max = true
is_set_max refresh = false
is_set_max read_daylight = false
is_set_max blackout = false
is_set_max restore_blackout = false
is_set_max sync_clock = false
is_set_max set_clock = false
is_set_max refresh_gateway_info = false

abbrev pub target_eq : Target → Target → Bool
target_eq all_nodes all_nodes = true
target_eq latest latest = true
target_eq gateway gateway = true
target_eq (node a) (node b) = a == b
target_eq _ _ = false

-- The test in the loop: a set-max for the target of `first`.
unfoldable pub replaces : Target → GatewayCommand → Bool
replaces target c = is_set_max c.action && target_eq c.target target

pub record Selection : Type 0 where
  pub selected : GatewayCommand
  pub superseded : List SupersededCommand
  pub restore : List GatewayCommand

-- The loop over the drained commands. The lists are built from the front: the source appends.
unfoldable pub select : Target → GatewayCommand → List GatewayCommand → Selection
select target selected [] = record { selected = selected; superseded = []; restore = [] }
select target selected (c ∷ cs) =
    let rest = select target (if replaces target c then c else selected) cs in
    if replaces target c
    then record rest {
      superseded = record { command = selected; replacement_id = c.command_id } ∷ rest.superseded;
    }
    else record rest { restore = c ∷ rest.restore }

-- The loop of `put_nowait` over the commands to restore; `false` if one of the calls raises.
unfoldable pub put_back : CommandQueue → List GatewayCommand → CommandQueue × Bool
put_back q [] = (q, true)
put_back q (c ∷ cs) =
    let rest = put_back (append_item q c) cs in if is_full q then (q, false) else rest

unfoldable pub discard_all : List SupersededCommand → List String → List String
discard_all [] ids = ids
discard_all (x ∷ xs) ids = discard_all xs (discard x.command.command_id ids)

-- The block under the lock.
unfoldable pub settle : CommandQueue → Selection → CommandQueue
settle q s = record q {
  pending_ids = add_id s.selected.command_id (discard_all s.superseded q.pending_ids);
}

-- `coalesce_set_max`; `none` if it raises `queue.Full`. The wait is in milliseconds. `meanwhile` is
-- what other threads do to the queue after it has been drained and before it is restored; what
-- they do during the sleep is in `q`.
unfoldable pub coalesce_set_max :
    CommandQueue
    → GatewayCommand
    → ℕ
    → (CommandQueue → CommandQueue)
    → CommandQueue × Option (GatewayCommand × List SupersededCommand)
coalesce_set_max q first wait meanwhile =
    if not (is_set_max first.action) || wait == 0
    then (q, some (first, []))
    else (let s = select first.target first q.items in
        let (restored, completed) = put_back (meanwhile (record q { items = [] })) s.restore in
        if completed
        then (settle restored s, some (s.selected, s.superseded))
        else (restored, none))
