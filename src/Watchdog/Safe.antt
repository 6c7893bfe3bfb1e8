-- ===== src/Watchdog/Safe.antt =====
-- What is known of an incident on which sanlight_mesh/mesh_watchdog.py acts.
use sanlight_mesh_mqtt_gatew.Base.{
  ◌∙◌, raise_if, ℕ, ◌≡◌, ◌≤◌, ◌<◌, ◌+◌, ◌*◌, ◌⊎◌, inl, inr, refl, ap, Bool, true, false, Option,
  none, some, List, arith, Result, ok, err, length, String, leb, ltb, >>=-eq-ok, require-eq-ok,
  raise_if-eq-ok, ok-injective, pos, leb→le, eq_iff, str_eq, Bool-cases, All, [], ◌∷◌, subst,
}
use sanlight_mesh_mqtt_gatew.Value.{
  boolean, float, Items, nil, cons, text, array, Value, null, Fields, object, get, value_or,
  integer,
}
use sanlight_mesh_mqtt_gatew.GatewayProtocol.{Raised, second, add_seconds, Stamp}
use sanlight_mesh_mqtt_gatew.GatewayProtocol.Decode.{is_text}
use sanlight_mesh_mqtt_gatew.GatewayProtocol.Valid.{add_seconds_sound}
use sanlight_mesh_mqtt_gatew.Watchdog.{WatchdogConfig}
use sanlight_mesh_mqtt_gatew.Watchdog.Recoveries.{sub_seconds_sound, recoveries, length-history_of}
use sanlight_mesh_mqtt_gatew.Watchdog.Incident.{
  history_of, insert, sorted, sub_seconds, in_window, keep, recent, lift, or_skip, is_count,
  as_mapping, in_read_only_actions, cooling, parse_time, recovery_history, time_field,
  eligible_incident, no_metadata, bad_failure_time, no_success,
}

lift-ok : {A : Type 0} (r : Result Raised A) (a : A) → lift r ≡ ok a → r ≡ ok a
lift-ok (ok b) a h = ap ok (ok-injective h)
lift-ok (err e) a h = cc

not_raised : {E : Type 0} (b : Bool) (e : E) → raise_if b e ≡ ok tt → b ≡ false
not_raised false e h = refl
not_raised true e h = cc

not_below : (a b : ℕ) → ltb a b ≡ false → b ≤ a
not_below a b h = ground arith

above : (a b : ℕ) → leb a b ≡ false → b < a
above a b h = ground arith

below_horizon :
    (now horizon f : ℕ)
    → add_seconds now 30 ≡ ok horizon
    → ltb horizon f ≡ false
    → f ≤ now + 30 * second
below_horizon now horizon f h t =
    let e = (add_seconds_sound now 30 horizon h).0 in ground (arith, e)

or_skip-ok : {A : Type 0} (o : Option A) (r : _) (a : A) → or_skip o r ≡ ok a → o ≡ some a
or_skip-ok none r a h = cc
or_skip-ok (some b) r a h = ap some (ok-injective h)

pub as_mapping-some : (v : Value) (fs : Fields) → as_mapping v ≡ some fs → v ≡ object fs
as_mapping-some (object gs) fs h = cc
as_mapping-some _ fs h = cc

is_count_sound : (v : Value) → is_count v ≡ true → (n : ℕ) × (1 ≤ n) × (v ≡ integer (pos n))
is_count_sound (integer (pos n)) h = (n, leb→le _ _ h, refl)
is_count_sound _ h = cc

is_text_sound : (v : Value) (s : String) → is_text v s ≡ true → v ≡ text s
is_text_sound (text t) s h = ap text ((eq_iff t s).0 h)
is_text_sound _ s h = cc

read_only_sound :
    (v : Value)
    → in_read_only_actions v ≡ ok true
    → (v ≡ text "refresh") ⊎ (v ≡ text "read-daylight")
read_only_sound (text s) h = elim (Bool-cases (str_eq s "refresh")) [
  | inl e ↦ inl (ap text ((eq_iff s "refresh").0 e))
  | inr e ↦
      let k : str_eq s "read-daylight" ≡ true = ok-injective (rw e at h) in
      inr (ap text ((eq_iff s "read-daylight").0 k))
]
read_only_sound _ h = cc

-- Not less than `s` seconds ago, if there is such a time at all.
abbrev pub Rested : Result Raised (Option ℕ) → ℕ → ℕ → Type 0
Rested time now s =
    (o : Option ℕ) × (time ≡ ok o)
    × ((o ≡ none) ⊎ ((t : ℕ) × (o ≡ some t) × (t + s * second ≤ now)))

cooling-Rested :
    (o : Option ℕ) (now s : ℕ)
    → cooling o now s ≡ false
    → (o ≡ none) ⊎ ((t : ℕ) × (o ≡ some t) × (t + s * second ≤ now))
cooling-Rested none now s h = inl refl
cooling-Rested (some t) now s h = inr (t, refl, ground arith)

abbrev Recent : ℕ → ℕ → ℕ → Type 0
Recent now window t = (t ≤ now + 30 * second) × (now ≤ t + window * second)

insert-All : (P : ℕ → Type 0) (t : ℕ) (xs : List ℕ) → P t → All P xs → All P (insert t xs)
unfolding insert
insert-All P t [] p h = (p, tt)
insert-All P t (x ∷ xs) p (h, hs) = elim (Bool-cases (leb t x)) [
  | inl e ↦ rw e (p, (h, hs))
  | inr e ↦ rw e (h, insert-All P t xs p hs)
]

sorted-All : (P : ℕ → Type 0) (xs : List ℕ) → All P xs → All P (sorted xs)
unfolding sorted
sorted-All P [] h = tt
sorted-All P (x ∷ xs) (h, hs) = insert-All P x (sorted xs) h (sorted-All P xs hs)

in_window_sound :
    (t cutoff now : ℕ)
    → in_window (some t) cutoff now ≡ ok true
    → (cutoff ≤ t) × (t ≤ now + 30 * second)
unfolding in_window
in_window_sound t cutoff now h = elim (Bool-cases (leb cutoff t)) [
  | inr e ↦ cc (rw e at h)
  | inl e ↦
      let (horizon, hh, k) = >>=-eq-ok (add_seconds now 30) _ (rw e at h) in
      let same = (add_seconds_sound now 30 horizon hh).0 in
      let k : leb t horizon ≡ true = ok-injective k in
      let le = leb→le t horizon k in (leb→le _ _ e, omega arith)
]

All-map : (P Q : ℕ → Type 0) (ts : List ℕ) → ((t : ℕ) → P t → Q t) → All P ts → All Q ts
All-map P Q [] f h = tt
All-map P Q (t ∷ ts) f (h, hs) = (f t h, All-map P Q ts f hs)

keep-All :
    (P : ℕ → Type 0) (b : Bool) (o : Option ℕ) (ts : List ℕ)
    → ((t : ℕ) → o ≡ some t → b ≡ true → P t)
    → All P ts
    → All P (keep b o ts)
keep-All P true (some t) ts h k = (h t refl refl, k)
keep-All P true none ts h k = k
keep-All P false o ts h k = k

module _ (fromisoformat : List ℕ → Option Stamp) where
  recent-All :
      (vs : Items) (cutoff now : ℕ) (ts : List ℕ)
      → recent fromisoformat vs cutoff now ≡ ok ts
      → All (λ t. (cutoff ≤ t) × (t ≤ now + 30 * second)) ts
  unfolding recent
  recent-All nil cutoff now ts h =
      subst (All (λ t. (cutoff ≤ t) × (t ≤ now + 30 * second))) (ok-injective h) tt
  recent-All (cons v vs) cutoff now ts h =
      let (o, ho, h₁) = >>=-eq-ok (parse_time fromisoformat v) _ h in
      let (b, hb, h₂) = >>=-eq-ok (in_window o cutoff now) _ h₁ in
      let (rest, hr, h₃) = >>=-eq-ok (recent fromisoformat vs cutoff now) _ h₂ in
      subst (All (λ t. (cutoff ≤ t) × (t ≤ now + 30 * second))) (ok-injective h₃) (
        keep-All _ b o rest (λ t e k. in_window_sound t cutoff now (rw⁻¹ e (hb ∙ ap ok k)))
          (recent-All vs cutoff now rest hr))

  history_of-Recent :
      (v : Value) (now window : ℕ) (ts : List ℕ)
      → history_of fromisoformat v now window ≡ ok ts
      → All (Recent now window) ts
  unfolding history_of
  history_of-Recent (array values) now window ts h =
      let (cutoff, hc, h₁) = >>=-eq-ok (sub_seconds now window) _ h in
      let (kept, hk, h₂) = >>=-eq-ok (recent fromisoformat values cutoff now) _ h₁ in
      let inside = recent-All values cutoff now kept hk in
      let same = sub_seconds_sound now window cutoff hc in
      subst (All (Recent now window)) (ok-injective h₂) (
        sorted-All (Recent now window) kept
          (All-map _ (Recent now window) kept (λ t (a, b). (b, ground (arith, a, same))) inside))
  history_of-Recent null now window ts h = subst (All (Recent now window)) (ok-injective h) tt
  history_of-Recent (boolean b) now window ts h =
      subst (All (Recent now window)) (ok-injective h) tt
  history_of-Recent (integer n) now window ts h =
      subst (All (Recent now window)) (ok-injective h) tt
  history_of-Recent (float f) now window ts h = subst (All (Recent now window)) (ok-injective h) tt
  history_of-Recent (text s) now window ts h = subst (All (Recent now window)) (ok-injective h) tt
  history_of-Recent (object fs) now window ts h =
      subst (All (Recent now window)) (ok-injective h) tt

  history-Recent :
      (state : Fields) (now window : ℕ) (ts : List ℕ)
      → recovery_history fromisoformat state now window ≡ ok ts
      → All (Recent now window) ts
  unfolding recovery_history
  history-Recent state now window ts h =
      history_of-Recent (value_or (get state "recoveryHistory") (array nil)) now window ts h

  length-recovery_history :
      (state : Fields) (now window : ℕ) (ts : List ℕ)
      → recovery_history fromisoformat state now window ≡ ok ts
      → length ts
        ≡ recoveries fromisoformat now window (value_or (get state "recoveryHistory") (array nil))
  unfolding recovery_history
  length-recovery_history state now window ts h =
      length-history_of fromisoformat (value_or (get state "recoveryHistory") (array nil)) now
        window ts h

module _ (fromisoformat : List ℕ → Option Stamp) (health state : Fields) (config : WatchdogConfig)
    (now : ℕ) where
  -- The time in a field of a document.
  abbrev pub stored : Fields → String → Result Raised (Option ℕ)
  stored document key = parse_time fromisoformat (value_or (get document key) null)

  -- A complete failure is counted; the last one was a read of all lamps, soon after a response and not long ago; the last probe
  -- and the last recovery are over for long enough, and fewer recoveries than the limit are recent.
  pub record IsEligible : Type 0 where
    pub command : Fields
    pub failed_at : ℕ
    pub successful_at : ℕ
    pub history : List ℕ
    pub command_stored : value_or (get health "lastCompleteNoResponseCommand") null ≡ object command
    pub counted :
        (n : ℕ) × (1 ≤ n)
        × (value_or (get health "consecutiveCompleteNoResponseCommands") (integer (pos 0))
            ≡ integer (pos n))
    pub all_lamps : value_or (get command "target") null ≡ text "all"
    pub read_only :
        (value_or (get command "action") null ≡ text "refresh")
        ⊎ (value_or (get command "action") null ≡ text "read-daylight")
    pub failed : stored health "lastCompleteNoResponseAt" ≡ ok (some failed_at)
    pub successful : stored health "lastSuccessfulResponseAt" ≡ ok (some successful_at)
    pub not_in_future : failed_at ≤ now + 30 * second
    pub not_too_old : now ≤ failed_at + config.incident_max_age_seconds * second
    pub recently_alive : failed_at ≤ successful_at + config.recent_success_seconds * second
    pub probe_rested : Rested (stored state "lastProbeAt") now config.probe_cooldown_seconds
    pub recovery_rested :
        Rested (stored state "lastRecoveryAt") now config.recovery_cooldown_seconds
    pub lie_in_window :
        All
          (λ t. (t ≤ now + 30 * second) × (now ≤ t + config.recovery_window_seconds * second))
          history
    pub recorded :
        recovery_history fromisoformat state now config.recovery_window_seconds ≡ ok history
    -- every recent recovery of the document is counted
    pub few_recoveries :
        recoveries fromisoformat now config.recovery_window_seconds
          (value_or (get state "recoveryHistory") (array nil))
        < config.max_recoveries_in_window
    pub below_limit : length history < config.max_recoveries_in_window

  rested :
      (key : String) (s : ℕ) (o : Option ℕ)
      → time_field fromisoformat state key ≡ ok o
      → cooling o now s ≡ false
      → Rested (stored state key) now s
  rested key s o h c = (o, lift-ok (stored state key) o h, cooling-Rested o now s c)

  -- The watchdog acts only on an incident that is eligible: at least one command without any response is
  -- counted; the last one was a `refresh` or `read-daylight` of all lamps, at most 30 seconds ahead, not
  -- older than the limit, and not longer after the last response than the limit; the cooldowns after the
  -- last probe and the last recovery are over; and fewer recoveries than the limit lie in the window.
  pub eligible_incident-IsEligible :
      eligible_incident fromisoformat health state config now ≡ ok tt → IsEligible
  unfolding eligible_incident
  eligible_incident-IsEligible h₀ =
      let (a, h₁) =
        require-eq-ok
          (is_count
            (value_or (get health "consecutiveCompleteNoResponseCommands") (integer (pos 0))))
          _ _ h₀ in
      let (command, hc, h₂) =
        >>=-eq-ok
          (or_skip (as_mapping (value_or (get health "lastCompleteNoResponseCommand") null))
            no_metadata)
          _ h₁ in
      let (all, h₃) = require-eq-ok (is_text (value_or (get command "target") null) "all") _ _ h₂ in
      let (r, hr, h₄) =
        >>=-eq-ok (lift (in_read_only_actions (value_or (get command "action") null))) _ h₃ in
      let (read, h₅) = require-eq-ok r _ _ h₄ in
      let (f, hf, h₆) =
        >>=-eq-ok (time_field fromisoformat health "lastCompleteNoResponseAt") _ h₅ in
      let (s, hs, h₇) =
        >>=-eq-ok (time_field fromisoformat health "lastSuccessfulResponseAt") _ h₆ in
      let (failed_at, hf', h₈) = >>=-eq-ok (or_skip f bad_failure_time) _ h₇ in
      let (successful_at, hs', h₉) = >>=-eq-ok (or_skip s no_success) _ h₈ in
      let (horizon, hh, k₁) = >>=-eq-ok (lift (add_seconds now 30)) _ h₉ in
      let (t₁, k₂) = raise_if-eq-ok (ltb horizon failed_at) _ _ k₁ in
      let (t₂, k₃) = raise_if-eq-ok (ltb (failed_at + _) now) _ _ k₂ in
      let (t₃, k₄) = raise_if-eq-ok (ltb (successful_at + _) failed_at) _ _ k₃ in
      let (p, hp, k₅) = >>=-eq-ok (time_field fromisoformat state "lastProbeAt") _ k₄ in
      let (t₄, k₆) = raise_if-eq-ok (cooling p now _) _ _ k₅ in
      let (v, hv, k₇) = >>=-eq-ok (time_field fromisoformat state "lastRecoveryAt") _ k₆ in
      let (t₅, k₈) = raise_if-eq-ok (cooling v now _) _ _ k₇ in
      let (l, hl, k₉) =
        >>=-eq-ok (lift (recovery_history fromisoformat state now config.recovery_window_seconds)) _
          k₈ in
      record {
        command = command;
        failed_at = failed_at;
        successful_at = successful_at;
        history = l;
        command_stored = as_mapping-some _ command (or_skip-ok _ _ command hc);
        counted = is_count_sound _ a;
        all_lamps = is_text_sound _ "all" all;
        read_only = read_only_sound _ (lift-ok _ r hr ∙ ap ok read);
        lie_in_window =
            history-Recent fromisoformat state now config.recovery_window_seconds l
              (lift-ok _ l hl);
        failed = lift-ok _ f hf ∙ ap ok (or_skip-ok f _ failed_at hf');
        successful = lift-ok _ s hs ∙ ap ok (or_skip-ok s _ successful_at hs');
        not_in_future = below_horizon now horizon failed_at (lift-ok _ horizon hh) t₁;
        not_too_old = not_below _ now t₂;
        recently_alive = not_below _ failed_at t₃;
        probe_rested = rested "lastProbeAt" _ p hp t₄;
        recovery_rested = rested "lastRecoveryAt" _ v hv t₅;
        recorded = lift-ok _ l hl;
        few_recoveries =
            subst (λ n. n < config.max_recoveries_in_window)
              (length-recovery_history fromisoformat state now config.recovery_window_seconds l
                (lift-ok _ l hl))
              (above _ (length l) (not_raised _ _ k₉));
        below_limit = above _ (length l) (not_raised _ _ k₉);
      }
