-- ===== src/Watchdog/Settings.antt =====
-- The settings that sanlight_mesh/mesh_watchdog.py accepts, and what a probe proves.
use sanlight_mesh_mqtt_gatew.Base.{
  ℕ, ◌≡◌, ◌≤◌, ◌↔◌, ◌&&◌, refl, ap, true, false, Option, none, some, List, arith, ok, >>=-eq-ok,
  require-eq-ok, ok-injective, subst, codes,
}
use sanlight_mesh_mqtt_gatew.Value.{object, end, Fields, get, value_or, integer}
use sanlight_mesh_mqtt_gatew.GatewayProtocol.Accepts.{checked_int_sound}
use sanlight_mesh_mqtt_gatew.Watchdog.{
  WatchdogConfig, strict_int, strict_bool, as_table, load_watchdog_config, table_config,
  assess_probe, occurs, tx_delta, accepted_marker, response_marker, no_response_marker, is_zero,
}

-- The ranges of the settings.
pub record InRange (c : WatchdogConfig) : Type 0 where
  pub incident_max_age : (60 ≤ c.incident_max_age_seconds) × (c.incident_max_age_seconds ≤ 86400)
  pub recent_success : (300 ≤ c.recent_success_seconds) × (c.recent_success_seconds ≤ 604800)
  pub probe_timeout : (20 ≤ c.probe_timeout_seconds) × (c.probe_timeout_seconds ≤ 180)
  pub probe_cooldown : (60 ≤ c.probe_cooldown_seconds) × (c.probe_cooldown_seconds ≤ 86400)
  pub recovery_cooldown : (60 ≤ c.recovery_cooldown_seconds) × (c.recovery_cooldown_seconds ≤ 86400)
  pub recovery_window : (3600 ≤ c.recovery_window_seconds) × (c.recovery_window_seconds ≤ 86400)
  pub max_recoveries : (1 ≤ c.max_recoveries_in_window) × (c.max_recoveries_in_window ≤ 20)
  pub verification_timeout :
      (20 ≤ c.verification_timeout_seconds) × (c.verification_timeout_seconds ≤ 180)

strict_int_sound :
    (t : Fields) (key : _) (d lo hi n : ℕ) → strict_int t key d lo hi ≡ ok n → (lo ≤ n) × (n ≤ hi)
unfolding strict_int
strict_int_sound t key d lo hi n h =
    let w = checked_int_sound (value_or (get t key) (integer _)) lo hi _ _ n h in (w.1, w.2)

table_config-InRange : (t : Fields) (c : WatchdogConfig) → table_config t ≡ ok c → InRange c
unfolding table_config
table_config-InRange t c h₀ =
    let (a, h₁) = require-eq-ok _ _ _ h₀ in
    let (e, he, h₂) = >>=-eq-ok (strict_bool t "enabled" true) _ h₁ in
    let (n₁, e₁, h₃) = >>=-eq-ok (strict_int t "incident_max_age_seconds" _ _ _) _ h₂ in
    let (n₂, e₂, h₄) = >>=-eq-ok (strict_int t "recent_success_seconds" _ _ _) _ h₃ in
    let (n₃, e₃, h₅) = >>=-eq-ok (strict_int t "probe_timeout_seconds" _ _ _) _ h₄ in
    let (n₄, e₄, h₆) = >>=-eq-ok (strict_int t "probe_cooldown_seconds" _ _ _) _ h₅ in
    let (n₅, e₅, h₇) = >>=-eq-ok (strict_int t "recovery_cooldown_seconds" _ _ _) _ h₆ in
    let (n₆, e₆, h₈) = >>=-eq-ok (strict_int t "recovery_window_seconds" _ _ _) _ h₇ in
    let (n₇, e₇, h₉) = >>=-eq-ok (strict_int t "max_recoveries_in_window" _ _ _) _ h₈ in
    let (n₈, e₈, k) = >>=-eq-ok (strict_int t "verification_timeout_seconds" _ _ _) _ h₉ in
    subst InRange (ok-injective k) (record {
      incident_max_age = strict_int_sound t _ _ _ _ n₁ e₁;
      recent_success = strict_int_sound t _ _ _ _ n₂ e₂;
      probe_timeout = strict_int_sound t _ _ _ _ n₃ e₃;
      probe_cooldown = strict_int_sound t _ _ _ _ n₄ e₄;
      recovery_cooldown = strict_int_sound t _ _ _ _ n₅ e₅;
      recovery_window = strict_int_sound t _ _ _ _ n₆ e₆;
      max_recoveries = strict_int_sound t _ _ _ _ n₇ e₇;
      verification_timeout = strict_int_sound t _ _ _ _ n₈ e₈;
    })

-- Settings that are accepted are in their ranges: in particular, the limit of recoveries and every
-- cooldown are positive.
pub load_watchdog_config-InRange :
    (root : Fields) (c : WatchdogConfig) → load_watchdog_config root ≡ ok c → InRange c
unfolding load_watchdog_config
load_watchdog_config-InRange root c h =
    let (raw, hr, k) =
      >>=-eq-ok (as_table (value_or (get root "watchdog") (object end))) table_config h in
    table_config-InRange raw c k

tx_delta-zero :
    (b a : Option ℕ) → is_zero (tx_delta b a) ≡ true → (n : ℕ) × (b ≡ some n) × (a ≡ some n)
unfolding tx_delta
tx_delta-zero none a h = cc
tx_delta-zero (some b) none h = cc
tx_delta-zero (some b) (some a) h = (b, refl, ap some (ground arith))

tx_delta-same : (n : ℕ) → is_zero (tx_delta (some n) (some n)) ≡ true
unfolding tx_delta
tx_delta-same n = ground arith

-- A stall is confirmed exactly when the probe's output says that the probe was accepted and that no
-- status was observed and does not report one, and the transmit counter was read before and after
-- with the same value.
pub assess_probe_iff :
    (output : List ℕ) (tx_before tx_after : Option ℕ)
    → (((assess_probe output tx_before tx_after).confirmed_stall ≡ true) ↔ (
        (occurs accepted_marker output ≡ true)
        × (occurs no_response_marker output ≡ true)
        × ((occurs response_marker output && occurs (codes "reports") output) ≡ false)
        × ((n : ℕ) × (tx_before ≡ some n) × (tx_after ≡ some n))))
unfolding assess_probe
assess_probe_iff output b a = (
  λ h. (ground arith, ground arith, ground arith, tx_delta-zero b a (ground arith)),
  λ w.
      let (accepted, none_seen, unreported, (n, before, after)) = w in
      let z : is_zero (tx_delta b a) ≡ true = rw (before, after) (tx_delta-same n) in
      ground (arith, accepted, none_seen, unreported, z),
)
