-- ===== src/Executor/Readings.antt =====
-- The readings of the lamps that sanlight_mesh/gateway_executor.py collects: one for each lamp it was asked
-- for, and what they hold when none failed.
use sanlight_mesh_mqtt_gatew.Base.{
  ℕ, suc, ◌+◌, ◌≤◌, ◌≡◌, refl, ap, ◌⊎◌, inl, inr, true, false, Bool-cases, String, Option, none,
  some, List, [], ◌∷◌, length, if◌then◌else◌, Result, ok, err, All, arith,
}
use sanlight_mesh_mqtt_gatew.GatewayProtocol.{GatewayCommand}
use sanlight_mesh_mqtt_gatew.Protocol.Live.{LiveStatus}
use sanlight_mesh_mqtt_gatew.Protocol.Daylight.{DaylightStatus, parsed}
use sanlight_mesh_mqtt_gatew.ClockWrite.{Lamp, clock_verified, verified_count, count_le}
use sanlight_mesh_mqtt_gatew.Service.Worker.Reported.{keys}
use sanlight_mesh_mqtt_gatew.Stateful.Rules.{Returns, Returns-then, Returns-after, Returns-value}
use sanlight_mesh_mqtt_gatew.Executor.{ProcessResult, Environment, Executor}
use sanlight_mesh_mqtt_gatew.Executor.Errors.{has_errors}
use sanlight_mesh_mqtt_gatew.Executor.Read.{
  NodeReading, DaylightReading, is_verified, reported_of, live_of, errors_of, refresh_node,
  refresh_nodes, daylight_of, verified_daylight, read_daylight_node, read_daylight_nodes,
  add_errors, node_errors, add_entry,
}
use sanlight_mesh_mqtt_gatew.Executor.Clock.{
  ClockReading, lamps_of, clock_live, check_clock, write_clock, write_clocks,
}

-- The addresses of readings.
abbrev pub addresses : List NodeReading → List String
addresses [] = []
addresses (n ∷ r) = n.address ∷ addresses r

abbrev pub daylight_addresses : List DaylightReading → List String
daylight_addresses [] = []
daylight_addresses (n ∷ r) = n.address ∷ daylight_addresses r

abbrev pub lamp_addresses : List ClockReading → List String
lamp_addresses [] = []
lamp_addresses (n ∷ r) = n.lamp.address ∷ lamp_addresses r

-- Without errors every lamp has both readings.
pub reading_keys :
    (rs : List NodeReading)
    → has_errors (errors_of rs) ≡ false
    → (keys (reported_of rs) ≡ addresses rs) × (keys (live_of rs) ≡ addresses rs)
unfolding errors_of reported_of live_of
reading_keys [] h = (refl, refl)
reading_keys (n ∷ r) h = go n.max_brightness n.live (reading_keys r) h
  where
    go :
        (m : Result String ℕ) (l : Result String LiveStatus)
        → (has_errors (errors_of r) ≡ false
            → (keys (reported_of r) ≡ addresses r) × (keys (live_of r) ≡ addresses r))
        → has_errors (add_errors n.address (node_errors m l) (errors_of r)) ≡ false
        → (keys (add_entry n.address m (reported_of r)) ≡ n.address ∷ addresses r)
          × (keys (add_entry n.address l (live_of r)) ≡ n.address ∷ addresses r)
    go (ok v) (ok s) rest e =
        let (a, b) = rest e in (ap (λ x. n.address ∷ x) a, ap (λ x. n.address ∷ x) b)
    go (ok v) (err l) rest e = cc
    go (err m) (ok s) rest e = cc
    go (err m) (err l) rest e = cc

daylight_le : (rs : List DaylightReading) → verified_daylight rs ≤ length rs
unfolding verified_daylight
daylight_le [] = omega arith
daylight_le (n ∷ r) = ground (arith, daylight_le r)

abbrev pub IsParsed : String × DaylightStatus → Type 0
IsParsed p = parsed p.1 ≡ true

abbrev pub Verified : List DaylightReading → Type 0
Verified rs = (keys (daylight_of rs) ≡ daylight_addresses rs) × All IsParsed (daylight_of rs)

-- When every reading counts as verified, every lamp has a status that was parsed.
pub daylight_keys : (rs : List DaylightReading) → verified_daylight rs ≡ length rs → Verified rs
unfolding verified_daylight daylight_of
daylight_keys [] h = (refl, tt)
daylight_keys (n ∷ r) h = go n.daylight (daylight_keys r) h
  where
    go :
        (d : Result String DaylightStatus)
        → (verified_daylight r ≡ length r → Verified r)
        → (if is_verified d then verified_daylight r + 1 else verified_daylight r) ≡ suc (length r)
        → (keys (add_entry n.address d (daylight_of r)) ≡ n.address ∷ daylight_addresses r)
          × All IsParsed (add_entry n.address d (daylight_of r))
    go (err e) rest h₁ = let le = daylight_le r in ground arith
    go (ok s) rest h₁ = elim (Bool-cases (parsed s)) [
      | inl p ↦
          let same : verified_daylight r ≡ length r = ground arith in
          let (a, b) = rest same in (ap (λ x. n.address ∷ x) a, (p, b))
      | inr p ↦ let le = daylight_le r in ground arith
    ]

-- A lamp that counts was read.
abbrev pub Coherent : ClockReading → Type 0
Coherent r = (clock_verified r.lamp ≡ false) ⊎ ((s : LiveStatus) × (r.live ≡ some s))

pub clock_keys :
    (rs : List ClockReading)
    → All Coherent rs
    → verified_count (lamps_of rs) ≡ length (lamps_of rs)
    → keys (clock_live rs) ≡ lamp_addresses rs
unfolding verified_count lamps_of clock_live
clock_keys [] c h = refl
clock_keys (r ∷ rs) (inl c, cs) h = let le = count_le (lamps_of rs) in ground arith
clock_keys (r ∷ rs) (inr (s, c), cs) h = elim (Bool-cases (clock_verified r.lamp)) [
  | inr v ↦ let le = count_le (lamps_of rs) in ground arith
  | inl v ↦
      let same : verified_count (lamps_of rs) ≡ length (lamps_of rs) = ground arith in
      rw c (ap (λ x. r.lamp.address ∷ x) (clock_keys rs cs same))
]

module _ (env : Environment) (executor : Executor) where
  pub refresh_nodes-addresses :
      (targets : List String)
      → Returns (refresh_nodes env executor targets) (λ rs. addresses rs ≡ targets)
  unfolding refresh_nodes refresh_node
  refresh_nodes-addresses [] = Returns-value _ _ refl
  refresh_nodes-addresses (a ∷ r) =
      Returns-then (λ n. n.address ≡ a) _
        (Returns-after _ _
          (λ p. Returns-after _ _ (λ m. Returns-after _ _ (λ q. Returns-value _ _ refl))))
        (λ n h.
          Returns-then (λ rs. addresses rs ≡ r) _ (refresh_nodes-addresses r)
            (λ rs k. Returns-value _ _ (rw (h, k) refl)))

  pub read_daylight_nodes-addresses :
      (targets : List String)
      → Returns (read_daylight_nodes env executor targets) (λ rs. daylight_addresses rs ≡ targets)
  unfolding read_daylight_nodes read_daylight_node
  read_daylight_nodes-addresses [] = Returns-value _ _ refl
  read_daylight_nodes-addresses (a ∷ r) =
      Returns-then (λ n. n.address ≡ a) _
        (Returns-after _ _ (λ p. Returns-after _ _ (λ m. Returns-value _ _ refl)))
        (λ n h.
          Returns-then (λ rs. daylight_addresses rs ≡ r) _ (read_daylight_nodes-addresses r)
            (λ rs k. Returns-value _ _ (rw (h, k) refl)))

  unread_lem : (lamp : Lamp) → lamp.parsed_live ≡ none → clock_verified lamp ≡ false
  unfolding clock_verified
  unread_lem lamp h = rw h (ground arith)

  check_clock-Coherent :
      (c : GatewayCommand) (a : String) (written started : ℕ) (p q : ProcessResult)
      (s : Option LiveStatus)
      → Returns
          (check_clock env executor c a written started p q s)
          (λ r. Coherent r × (r.lamp.address ≡ a))
  unfolding check_clock
  check_clock-Coherent c a written started p q none =
      Returns-value _ _ (inl (unread_lem _ refl), refl)
  check_clock-Coherent c a written started p q (some s) =
      Returns-after _ _ (λ expected. Returns-value _ _ (inr (s, refl), refl))

  pub write_clocks-Coherent :
      (c : GatewayCommand) (started : ℕ) (targets : List String)
      → Returns
          (write_clocks env executor c started targets)
          (λ rs. All Coherent rs × (lamp_addresses rs ≡ targets))
  unfolding write_clocks write_clock
  write_clocks-Coherent c started [] = Returns-value _ _ (tt, refl)
  write_clocks-Coherent c started (a ∷ r) =
      Returns-then (λ n. Coherent n × (n.lamp.address ≡ a)) _
        (Returns-after _ _ (λ w. Returns-after _ _ (λ t.
          Returns-after _ _ (λ p. Returns-after _ _ (λ q. check_clock-Coherent c a w t p q _)))))
        (λ n (h, l).
          Returns-then (λ rs. All Coherent rs × (lamp_addresses rs ≡ r)) _
            (write_clocks-Coherent c started r)
            (λ rs (k, m). Returns-value _ _ ((h, k), rw (l, m) refl)))
