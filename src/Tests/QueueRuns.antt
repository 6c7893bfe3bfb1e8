-- ===== src/Tests/QueueRuns.antt =====
-- Tests of the model of sanlight_mesh/gateway_queue.py.
use sanlight_mesh_mqtt_gatew.Base.{
  ◌≡◌, refl, inr, true, false, String, none, some, [], ◌∷◌, arith, subst, filter, All,
}
use sanlight_mesh_mqtt_gatew.GatewayProtocol.{
  GatewayCommand, Action, set_max, refresh, Target, node, all_nodes,
}
use sanlight_mesh_mqtt_gatew.CommandQueue.{
  CommandQueue, Selection, put, get, coalesce_set_max, settle, is_full, returned, select, replaces,
  put_back, discard_all, discard, add_id,
}
use sanlight_mesh_mqtt_gatew.CommandQueue.Select.{IsCoalesced, others}
use sanlight_mesh_mqtt_gatew.CommandQueue.Tracked.{
  IsTracked, put-IsTracked, get-IsTracked, coalesce-IsTracked,
}
use sanlight_mesh_mqtt_gatew.CommandQueue.Lost.{coalesce_set_max-alone, coalesce_set_max-loses}

abbrev command : String → Action → Target → GatewayCommand
command id action target = record {
  command_id = id;
  action = action;
  target = target;
  created_at = 0;
  expires_at = 30;
  value = none;
  seconds_since_midnight = none;
  confirmed = false;
}

abbrev dim : GatewayCommand
dim = command "dim" set_max (node 195)

abbrev brighten : GatewayCommand
brighten = command "brighten" set_max (node 195)

abbrev look : GatewayCommand
look = command "look" refresh all_nodes

abbrev empty : CommandQueue
empty = record { max_size = 2; items = []; pending_ids = [] }

-- `dim` is executed, and two commands wait.
abbrev busy : CommandQueue
busy = record {
  max_size = 2;
  items = look ∷ brighten ∷ [];
  pending_ids = "brighten" ∷ "look" ∷ "dim" ∷ [];
}

run_coalesce : coalesce_set_max busy dim 2000 (λ q. q) ≡ (
  record { max_size = 2; items = look ∷ []; pending_ids = "brighten" ∷ "look" ∷ [] },
  some (brighten, record { command = dim; replacement_id = "brighten" } ∷ []),
)
unfolding coalesce_set_max select replaces put_back settle discard_all discard add_id is_full filter
run_coalesce = refl

empty-IsTracked : IsTracked empty []
empty-IsTracked = record {
  distinct = λ s. omega arith;
  tracked = λ s. refl;
  bounded = inr (omega arith);
}

put-IsTracked_example : IsTracked (put empty dim).0 []
put-IsTracked_example = put-IsTracked empty [] dim empty-IsTracked

abbrev one : CommandQueue
one = (put empty dim).0

run_get : get one ≡ some (dim, record { max_size = 2; items = []; pending_ids = "dim" ∷ [] })
unfolding get put add_id is_full
run_get = refl

after_get : IsTracked (record { max_size = 2; items = []; pending_ids = "dim" ∷ [] }) (dim ∷ [])
after_get =
    get-IsTracked one (record { max_size = 2; items = []; pending_ids = "dim" ∷ [] }) dim
      put-IsTracked_example run_get

coalesce_set_max-alone_example :
    (s : Selection) × IsCoalesced (node 195) dim (look ∷ brighten ∷ []) s
    × (coalesce_set_max busy dim 2000 (λ m. m)
        ≡ (settle (record busy { items = s.restore }) s, some (s.selected, s.superseded)))
coalesce_set_max-alone_example =
    coalesce_set_max-alone busy dim 2000 refl (omega arith) (omega arith)

-- Two commands that arrive while the queue is drained.
abbrev crowded : CommandQueue
crowded = record {
  max_size = 2;
  items = command "x" refresh all_nodes ∷ command "y" refresh all_nodes ∷ [];
  pending_ids = "y" ∷ "x" ∷ "brighten" ∷ "look" ∷ "dim" ∷ [];
}

others-busy : others (node 195) (look ∷ brighten ∷ []) ≡ look ∷ []
unfolding filter replaces
others-busy = refl

crowded_full : is_full crowded ≡ true
unfolding is_full
crowded_full = refl

coalesce_set_max-loses_example :
    (coalesce_set_max busy dim 2000 (λ m. crowded) ≡ (crowded, none))
    × All
        (λ c. put crowded c ≡ (crowded, returned false))
        (others (node 195) (look ∷ brighten ∷ []))
coalesce_set_max-loses_example =
    coalesce_set_max-loses busy crowded dim 2000 (λ m. crowded) refl (omega arith)
      (rw others-busy (λ e. cc)) refl crowded_full (rw others-busy (refl, tt))

abbrev dimming : CommandQueue
dimming = record { max_size = 2; items = []; pending_ids = "dim" ∷ [] }

run_put : (put (put dimming look).0 brighten).0 ≡ busy
unfolding put add_id is_full
run_put = refl

busy-IsTracked : IsTracked busy (dim ∷ [])
busy-IsTracked =
    subst (λ q. IsTracked q (dim ∷ [])) run_put
      (put-IsTracked (put dimming look).0 (dim ∷ []) brighten
        (put-IsTracked dimming (dim ∷ []) look after_get))

coalesce-IsTracked_example :
    IsTracked
      (record { max_size = 2; items = look ∷ []; pending_ids = "brighten" ∷ "look" ∷ [] })
      (brighten ∷ [])
coalesce-IsTracked_example =
    coalesce-IsTracked busy
      (record { max_size = 2; items = look ∷ []; pending_ids = "brighten" ∷ "look" ∷ [] }) dim
      brighten 2000 (λ q. q) (record { command = dim; replacement_id = "brighten" } ∷ []) (λ m t. t)
      busy-IsTracked run_coalesce
