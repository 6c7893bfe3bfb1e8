-- ===== src/CommandQueue/Select.antt =====
-- What the loop of `coalesce_set_max` selects, and what is put back.
use sanlight_mesh_mqtt_gatew.Base.{
  ◌≡◌, refl, ap, Bool, true, false, not, String, List, [], ◌∷◌, ◌++◌, filter, if◌then◌else◌,
}
use sanlight_mesh_mqtt_gatew.GatewayProtocol.{Target, GatewayCommand}
use sanlight_mesh_mqtt_gatew.CommandQueue.{SupersededCommand, Selection, select, replaces}

abbrev pub commands : List SupersededCommand → List GatewayCommand
commands [] = []
commands (x ∷ xs) = x.command ∷ commands xs

abbrev pub replacement_ids : List SupersededCommand → List String
replacement_ids [] = []
replacement_ids (x ∷ xs) = x.replacement_id ∷ replacement_ids xs

abbrev pub command_ids : List GatewayCommand → List String
command_ids [] = []
command_ids (c ∷ cs) = c.command_id ∷ command_ids cs

abbrev pub matching : Target → List GatewayCommand → List GatewayCommand
matching target cs = filter (replaces target) cs

abbrev pub others : Target → List GatewayCommand → List GatewayCommand
others target cs = filter (λ c. not (replaces target c)) cs

-- The newest command is selected and every earlier one superseded by its successor, in order; the
-- rest is kept in order.
pub record IsCoalesced (target : Target) (first : GatewayCommand) (drained : List GatewayCommand)
    (s : Selection) : Type 0 where
  pub newest : commands s.superseded ++ (s.selected ∷ []) ≡ first ∷ matching target drained
  pub successors : replacement_ids s.superseded ≡ command_ids (matching target drained)
  pub kept : s.restore ≡ others target drained

-- One round of the loop.
select_step :
    (target : Target) (first c : GatewayCommand) (cs : List GatewayCommand) (b : Bool)
    → replaces target c ≡ b
    → IsCoalesced target (if b then c else first) cs (select target (if b then c else first) cs)
    → IsCoalesced target first (c ∷ cs) (select target first (c ∷ cs))
unfolding select filter
select_step target first c cs true e ih = record {
  newest = rw e (ap (λ l. first ∷ l) ih.newest);
  successors = rw e (ap (λ l. c.command_id ∷ l) ih.successors);
  kept = rw e ih.kept;
}
select_step target first c cs false e ih = record {
  newest = rw e ih.newest;
  successors = rw e ih.successors;
  kept = rw e (ap (λ l. c ∷ l) ih.kept);
}

pub select-IsCoalesced :
    (target : Target) (first : GatewayCommand) (drained : List GatewayCommand)
    → IsCoalesced target first drained (select target first drained)
unfolding select filter
select-IsCoalesced target first [] = record { newest = refl; successors = refl; kept = refl }
select-IsCoalesced target first (c ∷ cs) =
    select_step target first c cs (replaces target c) refl
      (select-IsCoalesced target (if replaces target c then c else first) cs)
