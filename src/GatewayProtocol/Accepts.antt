-- ===== src/GatewayProtocol/Accepts.antt =====
-- What each action requires of its arguments, and that `decode_command` requires it.
use sanlight_mesh_mqtt_gatew.Base.{
  ok-injective, ℕ, ◌≤◌, ◌≡◌, refl, ◌⊎◌, inl, inr, Bool, true, false, String, pos, subst, Option,
  none, some, List, [], ◌∷◌, All, codes, arith, ◌>>=◌, ◌>>◌, ok, Bool-cases, Option-cases,
  require-eq-ok, >>=-eq-ok, str_eq,
}
use sanlight_mesh_mqtt_gatew.Value.{Value, null, integer, text, Fields, get, value_or, checked_int}
use sanlight_mesh_mqtt_gatew.GatewayProtocol.{
  Action, set_max, refresh, read_daylight, blackout, restore_blackout, sync_clock, set_clock,
  refresh_gateway_info, Target, all_nodes, latest, gateway, node,
}
use sanlight_mesh_mqtt_gatew.GatewayProtocol.Names.{normalize_node, node_named, four_hex}
use sanlight_mesh_mqtt_gatew.GatewayProtocol.Decode.{
  only_target, is_text, Arguments, decode_arguments, forbid, has,
}

-- A unicast address.
abbrev pub IsNode : Target → Type 0
IsNode t = (n : ℕ) × (t ≡ node n) × (1 ≤ n) × (n ≤ 0x7FFF)

-- What each action requires of its target, its value, its seconds and its confirmation.
abbrev pub Accepts : Action → Target → Option ℕ → Option ℕ → Bool → Type 0
Accepts set_max t v s confirmed =
    IsNode t × ((n : ℕ) × (v ≡ some n) × (20 ≤ n) × (n ≤ 100)) × (s ≡ none)
Accepts refresh t v s confirmed = ((t ≡ all_nodes) ⊎ IsNode t) × (v ≡ none) × (s ≡ none)
Accepts read_daylight t v s confirmed = ((t ≡ all_nodes) ⊎ IsNode t) × (v ≡ none) × (s ≡ none)
Accepts blackout t v s confirmed =
    ((t ≡ all_nodes) ⊎ IsNode t) × (confirmed ≡ true) × (v ≡ none) × (s ≡ none)
Accepts restore_blackout t v s confirmed =
    (t ≡ latest) × (confirmed ≡ true) × (v ≡ none) × (s ≡ none)
Accepts sync_clock t v s confirmed = ((t ≡ all_nodes) ⊎ IsNode t) × (v ≡ none) × (s ≡ none)
Accepts set_clock t v s confirmed =
    ((t ≡ all_nodes) ⊎ IsNode t) × (v ≡ none) × ((n : ℕ) × (s ≡ some n) × (n ≤ 86399))
Accepts refresh_gateway_info t v s confirmed = (t ≡ gateway) × (v ≡ none) × (s ≡ none)

node_named_sound : (s : String) (t : Target) → node_named s ≡ ok t → IsNode t
unfolding node_named
node_named_sound s t h = elim (Option-cases (four_hex (codes s))) [
  | inl e ↦ cc (rw (e, node_named) at h)
  | inr (n, e) ↦ let h' = rw (e, node_named) at h in (n, ground arith, ground arith, ground arith)
]

normalize_node-unicast : (v : Value) (t : Target) → normalize_node v false ≡ ok t → IsNode t
unfolding normalize_node
normalize_node-unicast (text s) t h = node_named_sound s t (ground arith)
normalize_node-unicast _ t h = cc

normalize_node-any :
    (v : Value) (t : Target) → normalize_node v true ≡ ok t → (t ≡ all_nodes) ⊎ IsNode t
unfolding normalize_node
normalize_node-any (text s) t h = elim (Bool-cases (str_eq s "all")) [
  | inl e ↦ inl (ground arith)
  | inr e ↦ inr (node_named_sound s t (ground arith))
]
normalize_node-any _ t h = cc

pub checked_int_sound :
    {E : Type 0} (v : Value) (lo hi : ℕ) (e₁ e₂ : E) (n : ℕ)
    → checked_int v lo hi e₁ e₂ ≡ ok n
    → (v ≡ integer (pos n)) × (lo ≤ n) × (n ≤ hi)
unfolding checked_int
checked_int_sound (integer (pos m)) lo hi e₁ e₂ n h = ground arith
checked_int_sound _ lo hi e₁ e₂ n h = cc

pub checked_int_complete :
    {E : Type 0} (lo hi : ℕ) (e₁ e₂ : E) (n : ℕ)
    → lo ≤ n
    → n ≤ hi
    → checked_int (integer (pos n)) lo hi e₁ e₂ ≡ ok n
unfolding checked_int
checked_int_complete lo hi e₁ e₂ n h k = ground arith

-- The keys of a document that the action does not take.
abbrev pub foreign_keys : Action → List String
foreign_keys set_max = "confirmed" ∷ "secondsSinceMidnight" ∷ []
foreign_keys refresh = "value" ∷ "confirmed" ∷ "secondsSinceMidnight" ∷ []
foreign_keys read_daylight = "value" ∷ "confirmed" ∷ "secondsSinceMidnight" ∷ []
foreign_keys blackout = "value" ∷ "secondsSinceMidnight" ∷ []
foreign_keys restore_blackout = "value" ∷ "secondsSinceMidnight" ∷ []
foreign_keys sync_clock = "value" ∷ "confirmed" ∷ "secondsSinceMidnight" ∷ []
foreign_keys set_clock = "value" ∷ "confirmed" ∷ []
foreign_keys refresh_gateway_info = "value" ∷ "confirmed" ∷ "secondsSinceMidnight" ∷ []

-- The document has none of the keys.
abbrev pub Lacks : Fields → List String → Type 0
Lacks document keys = All (λ k. get document k ≡ none) keys

lacks_key : (document : Fields) (k : String) → has document k ≡ false → get document k ≡ none
lacks_key document k h = elim (Option-cases (get document k)) [
  | inl e ↦ e
  | inr (v, e) ↦ cc (rw (has, e) at h)
]

forbid_sound :
    (document : Fields) (keys : List String) (u : _)
    → forbid document keys ≡ ok u
    → Lacks document keys
unfolding forbid
forbid_sound document [] u h = tt
forbid_sound document (k ∷ ks) u h = elim (Bool-cases (has document k)) [
  | inl e ↦ cc (rw e at h)
  | inr e ↦ (lacks_key document k e, forbid_sound document ks u (rw e at h))
]

-- The branches that take a node or "all" and nothing else.
any_target_sound :
    (v : Value) (document : Fields) (keys : List String) (x : Arguments)
    → (normalize_node v true >>= λ t. forbid document keys >> ok (only_target t)) ≡ ok x
    → ((x.target ≡ all_nodes) ⊎ IsNode x.target) × (x.value ≡ none) × (x.seconds ≡ none)
any_target_sound v document keys x h =
    let (t, ht, h₁) = >>=-eq-ok (normalize_node v true) _ h in
    let (u, hu, e) = >>=-eq-ok (forbid document keys) _ h₁ in
    subst
      (λ (y : Arguments).
        ((y.target ≡ all_nodes) ⊎ IsNode y.target) × (y.value ≡ none) × (y.seconds ≡ none))
      (ok-injective e) (normalize_node-any v t ht, refl, refl)

pub decode_arguments_sound :
    (a : Action) (document : Fields) (confirmed : Bool) (x : Arguments)
    → decode_arguments a document confirmed ≡ ok x
    → Accepts a x.target x.value x.seconds confirmed
unfolding decode_arguments
decode_arguments_sound set_max document confirmed x h =
    let (t, ht, h₁) =
      >>=-eq-ok (normalize_node (value_or (get document "target") null) false) _ h in
    let (n, hn, h₂) =
      >>=-eq-ok (checked_int (value_or (get document "value") null) 20 100 _ _) _ h₁ in
    let (u, hu, e) = >>=-eq-ok (forbid document _) _ h₂ in
    let w = checked_int_sound (value_or (get document "value") null) 20 100 _ _ n hn in
    subst (λ (y : Arguments). Accepts set_max y.target y.value y.seconds confirmed) (ok-injective e)
      (normalize_node-unicast _ t ht, (n, refl, w.1, w.2), refl)
decode_arguments_sound refresh document confirmed x h = any_target_sound _ document _ x h
decode_arguments_sound read_daylight document confirmed x h = any_target_sound _ document _ x h
decode_arguments_sound sync_clock document confirmed x h = any_target_sound _ document _ x h
decode_arguments_sound blackout document confirmed x h =
    let (t, ht, h₁) = >>=-eq-ok (normalize_node (value_or (get document "target") null) true) _ h in
    let (c, h₂) = require-eq-ok confirmed _ _ h₁ in
    let (u, hu, e) = >>=-eq-ok (forbid document _) _ h₂ in
    subst (λ (y : Arguments). Accepts blackout y.target y.value y.seconds confirmed)
      (ok-injective e) (normalize_node-any _ t ht, c, refl, refl)
decode_arguments_sound restore_blackout document confirmed x h =
    let (r, h₁) =
      require-eq-ok (is_text (value_or (get document "target") (text "latest")) "latest") _ _ h in
    let (c, h₂) = require-eq-ok confirmed _ _ h₁ in
    let (u, hu, e) = >>=-eq-ok (forbid document _) _ h₂ in
    subst (λ (y : Arguments). Accepts restore_blackout y.target y.value y.seconds confirmed)
      (ok-injective e) (refl, c, refl, refl)
decode_arguments_sound set_clock document confirmed x h =
    let (t, ht, h₁) = >>=-eq-ok (normalize_node (value_or (get document "target") null) true) _ h in
    let (n, hn, h₂) =
      >>=-eq-ok (checked_int (value_or (get document "secondsSinceMidnight") null) 0 86399 _ _) _
        h₁ in
    let (u, hu, e) = >>=-eq-ok (forbid document _) _ h₂ in
    let w =
      checked_int_sound (value_or (get document "secondsSinceMidnight") null) 0 86399 _ _ n hn in
    subst (λ (y : Arguments). Accepts set_clock y.target y.value y.seconds confirmed)
      (ok-injective e) (normalize_node-any _ t ht, refl, (n, refl, w.2))
decode_arguments_sound refresh_gateway_info document confirmed x h =
    let (r, h₁) =
      require-eq-ok (is_text (value_or (get document "target") (text "gateway")) "gateway") _ _ h in
    let (u, hu, e) = >>=-eq-ok (forbid document _) _ h₁ in
    subst (λ (y : Arguments). Accepts refresh_gateway_info y.target y.value y.seconds confirmed)
      (ok-injective e) (refl, refl, refl)

any_target-Lacks :
    (v : Value) (document : Fields) (keys : List String) (x : Arguments)
    → (normalize_node v true >>= λ t. forbid document keys >> ok (only_target t)) ≡ ok x
    → Lacks document keys
any_target-Lacks v document keys x h =
    let (t, ht, h₁) = >>=-eq-ok (normalize_node v true) _ h in
    let (u, hu, e) = >>=-eq-ok (forbid document keys) _ h₁ in forbid_sound document keys u hu

pub decode_arguments-Lacks :
    (a : Action) (document : Fields) (confirmed : Bool) (x : Arguments)
    → decode_arguments a document confirmed ≡ ok x
    → Lacks document (foreign_keys a)
unfolding decode_arguments
decode_arguments-Lacks set_max document confirmed x h =
    let (t, ht, h₁) =
      >>=-eq-ok (normalize_node (value_or (get document "target") null) false) _ h in
    let (n, hn, h₂) =
      >>=-eq-ok (checked_int (value_or (get document "value") null) 20 100 _ _) _ h₁ in
    let (u, hu, e) = >>=-eq-ok (forbid document (foreign_keys set_max)) _ h₂ in
    forbid_sound document (foreign_keys set_max) u hu
decode_arguments-Lacks refresh document confirmed x h = any_target-Lacks _ document _ x h
decode_arguments-Lacks read_daylight document confirmed x h = any_target-Lacks _ document _ x h
decode_arguments-Lacks sync_clock document confirmed x h = any_target-Lacks _ document _ x h
decode_arguments-Lacks blackout document confirmed x h =
    let (t, ht, h₁) = >>=-eq-ok (normalize_node (value_or (get document "target") null) true) _ h in
    let (c, h₂) = require-eq-ok confirmed _ _ h₁ in
    let (u, hu, e) = >>=-eq-ok (forbid document (foreign_keys blackout)) _ h₂ in
    forbid_sound document (foreign_keys blackout) u hu
decode_arguments-Lacks restore_blackout document confirmed x h =
    let (r, h₁) =
      require-eq-ok (is_text (value_or (get document "target") (text "latest")) "latest") _ _ h in
    let (c, h₂) = require-eq-ok confirmed _ _ h₁ in
    let (u, hu, e) = >>=-eq-ok (forbid document (foreign_keys restore_blackout)) _ h₂ in
    forbid_sound document (foreign_keys restore_blackout) u hu
decode_arguments-Lacks set_clock document confirmed x h =
    let (t, ht, h₁) = >>=-eq-ok (normalize_node (value_or (get document "target") null) true) _ h in
    let (n, hn, h₂) =
      >>=-eq-ok (checked_int (value_or (get document "secondsSinceMidnight") null) 0 86399 _ _) _
        h₁ in
    let (u, hu, e) = >>=-eq-ok (forbid document (foreign_keys set_clock)) _ h₂ in
    forbid_sound document (foreign_keys set_clock) u hu
decode_arguments-Lacks refresh_gateway_info document confirmed x h =
    let (r, h₁) =
      require-eq-ok (is_text (value_or (get document "target") (text "gateway")) "gateway") _ _ h in
    let (u, hu, e) = >>=-eq-ok (forbid document (foreign_keys refresh_gateway_info)) _ h₁ in
    forbid_sound document (foreign_keys refresh_gateway_info) u hu
