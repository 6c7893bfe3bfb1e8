-- ===== src/CommandQueue/Count.antt =====
-- Identifiers in a list of commands and in the pending set.
use sanlight_mesh_mqtt_gatew.Base.{
  ℕ, suc, ◌+◌, ◌≡◌, refl, ◌∙◌, inl, inr, not, ◌&&◌, ◌||◌, String, List, [], ◌∷◌, ◌++◌, filter,
  Bool-cases, arith, if◌then◌else◌, str_eq, eq_iff, ◌==◌,
}
use sanlight_mesh_mqtt_gatew.GatewayProtocol.{Target, GatewayCommand}
use sanlight_mesh_mqtt_gatew.CommandQueue.{
  SupersededCommand, contains_id, add_id, discard, discard_all, select, replaces,
}
use sanlight_mesh_mqtt_gatew.CommandQueue.Select.{commands}

-- How many of the commands have the identifier.
abbrev pub count_id : String → List GatewayCommand → ℕ
count_id s [] = 0
count_id s (c ∷ cs) = if str_eq c.command_id s then suc (count_id s cs) else count_id s cs

pub count_id-append :
    (s : String) (xs ys : List GatewayCommand)
    → count_id s (xs ++ ys) ≡ count_id s xs + count_id s ys
count_id-append s [] ys = omega arith
count_id-append s (c ∷ xs) ys = ground (arith, count_id-append s xs ys)

pub contains_id-discard :
    (x s : String) (ids : List String)
    → contains_id (discard x ids) s ≡ (not (str_eq x s) && contains_id ids s)
unfolding discard filter
contains_id-discard x s [] = ground arith
contains_id-discard x s (y ∷ ids) =
    ground (arith, contains_id-discard x s ids, eq_iff y x, eq_iff y s, eq_iff x s)

pub contains_id-add :
    (x s : String) (ids : List String)
    → contains_id (add_id x ids) s ≡ (str_eq x s || contains_id ids s)
unfolding add_id
contains_id-add x s ids = elim (Bool-cases (contains_id ids x)) [
  | inl h ↦ elim (Bool-cases (str_eq x s)) [
    | inl e ↦ rw (h, e) (rw (← (eq_iff x s).0 e) h)
    | inr n ↦ rw (h, n)
  ]
  | inr h ↦ rw h
]

pub contains_id-discard_all :
    (xs : List SupersededCommand) (s : String) (ids : List String)
    → contains_id (discard_all xs ids) s ≡ (count_id s (commands xs) == 0 && contains_id ids s)
unfolding discard_all
contains_id-discard_all [] s ids = refl
contains_id-discard_all (x ∷ xs) s ids =
    contains_id-discard_all xs s (discard x.command.command_id ids)
    ∙ ground (arith, contains_id-discard x.command.command_id s ids)

-- The loop of `coalesce_set_max` loses no command and makes none.
pub select_count :
    (s : String) (target : Target) (first : GatewayCommand) (drained : List GatewayCommand)
    → let r = select target first drained in
      count_id s (first ∷ drained)
      ≡ count_id s (r.selected ∷ []) + count_id s (commands r.superseded) + count_id s r.restore
unfolding select
select_count s target first [] = omega arith
select_count s target first (c ∷ cs) = elim (Bool-cases (replaces target c)) [
  | inl r ↦ rw r (ground (arith, select_count s target c cs))
  | inr r ↦ rw r (ground (arith, select_count s target first cs))
]

pub count_snoc :
    (s : String) (xs ys : List GatewayCommand) (c : GatewayCommand)
    → count_id s (xs ++ (ys ++ c ∷ [])) ≡ count_id s (xs ++ ys) + count_id s (c ∷ [])
count_snoc s xs ys c = omega (
  arith,
  count_id-append s xs (ys ++ c ∷ []),
  count_id-append s ys (c ∷ []),
  count_id-append s xs ys,
)
