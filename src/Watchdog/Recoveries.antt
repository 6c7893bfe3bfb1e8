-- ===== src/Watchdog/Recoveries.antt =====
-- The recoveries that `eligible_incident` of sanlight_mesh/mesh_watchdog.py counts: all recent ones of the
-- history.
use sanlight_mesh_mqtt_gatew.Base.{
  ℕ, suc, ◌+◌, ◌*◌, ◌≡◌, refl, sym, ap, ◌∙◌, inl, inr, Bool, true, false, Bool-cases, Option, some,
  none, List, [], ◌∷◌, leb, length, ◌&&◌, Result, ok, err, >>=-eq-ok, ok-injective, if◌then◌else◌,
  arith,
}
use sanlight_mesh_mqtt_gatew.Value.{
  Value, Items, null, boolean, integer, float, text, array, object, nil, cons,
}
use sanlight_mesh_mqtt_gatew.GatewayProtocol.{Stamp, Raised, second, add_seconds}
use sanlight_mesh_mqtt_gatew.GatewayProtocol.Valid.{add_seconds_sound}
use sanlight_mesh_mqtt_gatew.Watchdog.Incident.{
  parse_time, in_window, keep, recent, sorted, insert, sub_seconds, history_of,
}

length-insert : (t : ℕ) (xs : List ℕ) → length (insert t xs) ≡ suc (length xs)
unfolding insert
length-insert t [] = refl
length-insert t (x ∷ xs) = elim (Bool-cases (leb t x)) [
  | inl e ↦ rw e refl
  | inr e ↦ rw e (ap suc (length-insert t xs))
]

length-sorted : (xs : List ℕ) → length (sorted xs) ≡ length xs
unfolding sorted
length-sorted [] = refl
length-sorted (x ∷ xs) = length-insert x (sorted xs) ∙ ap suc (length-sorted xs)

pub sub_seconds_sound :
    (now window cutoff : ℕ) → sub_seconds now window ≡ ok cutoff → now ≡ cutoff + window * second
unfolding sub_seconds
sub_seconds_sound now window cutoff h = ground arith

-- Whether an entry is the time of a recent recovery: not before the window, nor 30 seconds ahead.
abbrev is_recent : ℕ → ℕ → Result Raised (Option ℕ) → Bool
is_recent now window (ok (some t)) = leb now (t + window * second) && leb t (now + 30 * second)
is_recent now window (ok none) = false
is_recent now window (err e) = false

length-keep :
    (now window cutoff : ℕ) (o : Option ℕ) (b : Bool) (ts : List ℕ)
    → now ≡ cutoff + window * second
    → in_window o cutoff now ≡ ok b
    → length (keep b o ts) ≡ (if is_recent now window (ok o) then suc (length ts) else length ts)
unfolding in_window
length-keep now window cutoff none b ts same h = rw⁻¹ (ok-injective h) refl
length-keep now window cutoff (some t) b ts same h = elim (Bool-cases (leb cutoff t)) [
  | inr e ↦
      let late : leb now (t + window * second) ≡ false = ground (arith, e, same) in
      let no : false ≡ b = ok-injective (rw e at h) in rw late (rw⁻¹ no refl)
  | inl e ↦
      let (horizon, hh, k) = >>=-eq-ok (add_seconds now 30) _ (rw e at h) in
      let ahead : horizon ≡ now + 30 * second = (add_seconds_sound now 30 horizon hh).0 in
      let early : leb now (t + window * second) ≡ true = ground (arith, e, same) in
      let same_test : leb t (now + 30 * second) ≡ b = ap (leb t) (sym ahead) ∙ ok-injective k in
      rw early (rw same_test (elim (Bool-cases b) [ inl y ↦ rw y refl | inr y ↦ rw y refl ]))
]

module _ (fromisoformat : List ℕ → Option Stamp) where
  abbrev recent_entries : ℕ → ℕ → Items → ℕ
  recent_entries now window nil = 0
  recent_entries now window (cons v vs) =
      let rest = recent_entries now window vs in
      if is_recent now window (parse_time fromisoformat v) then suc rest else rest

  -- How many recent recoveries a history has.
  abbrev pub recoveries : ℕ → ℕ → Value → ℕ
  recoveries now window (array vs) = recent_entries now window vs
  recoveries now window null = 0
  recoveries now window (boolean b) = 0
  recoveries now window (integer n) = 0
  recoveries now window (float f) = 0
  recoveries now window (text s) = 0
  recoveries now window (object fs) = 0

  length-recent :
      (vs : Items) (now window cutoff : ℕ) (ts : List ℕ)
      → now ≡ cutoff + window * second
      → recent fromisoformat vs cutoff now ≡ ok ts
      → length ts ≡ recent_entries now window vs
  unfolding recent
  length-recent nil now window cutoff ts same h = ap length (sym (ok-injective h))
  length-recent (cons v vs) now window cutoff ts same h =
      let (o, ho, h₁) = >>=-eq-ok (parse_time fromisoformat v) _ h in
      let (b, hb, h₂) = >>=-eq-ok (in_window o cutoff now) _ h₁ in
      let (rest, hr, h₃) = >>=-eq-ok (recent fromisoformat vs cutoff now) _ h₂ in
      let step = length-keep now window cutoff o b rest same hb in
      let before = length-recent vs now window cutoff rest same hr in
      ap length (sym (ok-injective h₃)) ∙ (rw ho (rw⁻¹ before step))

  -- The history that is counted has as many times as there are recent recoveries.
  pub length-history_of :
      (v : Value) (now window : ℕ) (ts : List ℕ)
      → history_of fromisoformat v now window ≡ ok ts
      → length ts ≡ recoveries now window v
  unfolding history_of
  length-history_of (array vs) now window ts h =
      let (cutoff, hc, h₁) = >>=-eq-ok (sub_seconds now window) _ h in
      let (kept, hk, h₂) = >>=-eq-ok (recent fromisoformat vs cutoff now) _ h₁ in
      ap length (sym (ok-injective h₂))
      ∙ (length-sorted kept
          ∙ length-recent vs now window cutoff kept (sub_seconds_sound now window cutoff hc) hk)
  length-history_of null now window ts h = ap length (sym (ok-injective h))
  length-history_of (boolean b) now window ts h = ap length (sym (ok-injective h))
  length-history_of (integer n) now window ts h = ap length (sym (ok-injective h))
  length-history_of (float f) now window ts h = ap length (sym (ok-injective h))
  length-history_of (text s) now window ts h = ap length (sym (ok-injective h))
  length-history_of (object fs) now window ts h = ap length (sym (ok-injective h))
