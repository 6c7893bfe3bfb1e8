-- ===== src/Runtime/Blackout/Moves.antt =====
-- That the methods which send keep the invariant of a blackout.
use sanlight_mesh_mqtt_gatew.Base.{
  ℕ, ◌+◌, ◌≡◌, ◌≢◌, ◌⊎◌, inl, inr, refl, sym, ap, subst, Bool, true, false, not, Option, none, some,
  List, [], ◌∷◌, In, All, Result, ok, if◌then◌else◌, contains, some-inj, ◌∙◌,
}
use sanlight_mesh_mqtt_gatew.Protocol.Opcode.{ValueError}
use sanlight_mesh_mqtt_gatew.Protocol.Brightness.Policy.{build_blackout_pdu_distinct}
use sanlight_mesh_mqtt_gatew.Value.{null}
use sanlight_mesh_mqtt_gatew.Runtime.{
  Setup, Purpose, verification, Message, Finish, Effect, Transaction, do_effect, is_finished,
  has_finished, finish, fail, error, validate_destination, blackout_verified,
}
use sanlight_mesh_mqtt_gatew.Runtime.Send.{
  brightness_pdu, send_pdu, send_percent, send_max_brightness, send_get_max_brightness,
  start_get_max_readback,
}
use sanlight_mesh_mqtt_gatew.Runtime.Blackout.{
  blackout_bytes, Planned, Justified, Reading, Waiting, Ready, Writing, Safe,
}

pub All-map :
    {A : Type 0} (P Q : A → Type 0) (xs : List A) → ((x : A) → P x → Q x) → All P xs → All Q xs
All-map P Q [] f h = tt
All-map P Q (x ∷ xs) f h = (f x h.0, All-map P Q xs f h.1)

pub Safe-if :
    {selected : List ℕ} (b : Bool) (t u : Transaction)
    → Safe selected t
    → Safe selected u
    → Safe selected (if b then t else u)
Safe-if true t u h k = h
Safe-if false t u h k = k

-- A case of `if` that knows the test.
pub Safe-test :
    {selected : List ℕ} (b : Bool) (t u : Transaction)
    → (b ≡ true → Safe selected t)
    → (b ≡ false → Safe selected u)
    → Safe selected (if b then t else u)
Safe-test true t u h k = h refl
Safe-test false t u h k = k refl

Planned-later :
    (e : Effect) (entries : List (ℕ × ℕ)) (log : List Effect) (a : ℕ)
    → Planned entries log a
    → Planned entries (e ∷ log) a
Planned-later e entries log a (v, i, r, n) = (v, i, inr r, n)

pub Waiting-later :
    (e : Effect) (queue results : List (ℕ × ℕ)) (log : List Effect) (a : ℕ)
    → Waiting queue results log a
    → Waiting queue results (e ∷ log) a
Waiting-later e queue results log a (inl (i, r)) = inl (i, inr r)
Waiting-later e queue results log a (inr i) = inr i

Ready-later :
    (e : Effect) {targets : List ℕ} {queue results : List (ℕ × ℕ)} {log : List Effect}
    → Ready targets queue results log
    → Ready targets queue results (e ∷ log)
Ready-later e {queue} {results} {log} r = record {
  entries = r.entries;
  created = inr r.created;
  queued = All-map _ _ queue (λ p w. (w.0, Planned-later e r.entries log p.0 w.1)) r.queued;
  progress = λ a i. Waiting-later e queue results log a (r.progress a i);
}

pub Reading-later :
    (e : Effect) {percent : Option ℕ} {purpose : Option Purpose} {originals : List (ℕ × ℕ)}
    {log : List Effect}
    → Reading percent purpose originals log
    → Reading percent purpose originals (e ∷ log)
Reading-later e {originals} r = record {
  no_percent = r.no_percent;
  not_restoring = r.not_restoring;
  originals_read = All-map _ _ originals (λ p i. inr i) r.originals_read;
}

-- An effect that needs nothing before it.
pub effect-Safe :
    {selected : List ℕ} (e : Effect) (t : Transaction)
    → Justified e t.log
    → Safe selected t
    → Safe selected (do_effect e t)
effect-Safe e t j s = record {
  chosen = s.chosen;
  guarded = (j, s.guarded);
  honest = λ r code h a i. let w = s.honest r code h a i in (w.0, inr w.1);
  phase = λ h. elim (s.phase h) [
    | inl p ↦ inl (Reading-later e p)
    | inr p ↦ inr (record {
      zero_percent = p.zero_percent;
      not_preflight = p.not_preflight;
      ready = Ready-later e p.ready;
    })
  ];
}

-- A message that does not report a verified blackout.
abbrev pub IsOther : Message → Type 0
IsOther m = (r : List (ℕ × ℕ)) → m ≢ blackout_verified r

pub some_message :
    (m n : Message) (j k : ℕ)
    → ◌≡◌ {A = Option Finish}
        (some (record { message = m; code = j }))
        (some (record { message = n; code = k }))
    → m ≡ n
some_message m n j k h = cc

pub ended-Safe :
    {selected : List ℕ} (m : Message) (code : ℕ) (t : Transaction)
    → IsOther m
    → Safe selected t
    → Safe selected (record t { finished = some (record { message = m; code = code }) })
ended-Safe m code t o s = record {
  chosen = s.chosen;
  guarded = s.guarded;
  honest = λ r k h a i. absurd (o r (some_message m (blackout_verified r) code k h));
  phase = λ h. absurd (not_none h);
}
  where
    not_none : {f : Finish} → ◌≡◌ {A = Option Finish} (some f) none → ⊥
    not_none h = cc

pub finish-Safe :
    {selected : List ℕ} (m : Message) (code : ℕ) (t : Transaction)
    → IsOther m
    → Safe selected t
    → Safe selected (finish m code t)
unfolding finish
finish-Safe m code t o s =
    Safe-if (is_finished t) t (record t { finished = some (record { message = m; code = code }) }) s
      (ended-Safe m code t o s)

pub fail-Safe : {selected : List ℕ} (t : Transaction) → Safe selected t → Safe selected (fail t)
unfolding fail
fail-Safe t s = finish-Safe error 1 t (λ r h. cc) s

pub not_finished : (t : Transaction) → is_finished t ≡ false → t.finished ≡ none
not_finished t h = go t.finished h
  where
    go : (f : Option Finish) → has_finished f ≡ false → f ≡ none
    go none h = refl
    go (some f) h = cc

pub unfinished : {f : Finish} (o : Option Finish) → o ≡ none → o ≡ some f → ⊥
unfinished none h k = cc
unfinished (some f) h k = cc

blackout_pdu : brightness_pdu 0 ≡ ok blackout_bytes
blackout_pdu = (build_blackout_pdu_distinct null).0

module _ {selected : List ℕ} (c : Setup) where
  pub send_get-Safe :
      (t : Transaction) → Safe selected t → Safe selected (send_get_max_brightness c t)
  unfolding send_get_max_brightness
  send_get-Safe t s = Safe-if (is_finished t) t _ s (
      Safe-if (not c.sender_node) _ _ (fail-Safe t s) (
        Safe-if (validate_destination c t.current_brightness_destination) _ _
          (effect-Safe _ (record t { get_max_attempt = t.get_max_attempt + 1 }) tt s) s))

  -- A readback keeps the invariant if its purpose fits the phase.
  pub readback-Safe :
      (p : Purpose) (t : Transaction)
      → Safe selected t
      → Safe selected (record t { get_max_purpose = some p })
      → Safe selected (start_get_max_readback c p t)
  unfolding start_get_max_readback
  readback-Safe p t s k = Safe-if (is_finished t) t _ s (
      Safe-if t.get_max_started t _ s (
        Safe-if (not c.sender_node) _ _ (fail-Safe t s) (
          Safe-if (not (contains c.sanlight_nodes t.current_brightness_destination)) _ _
            (fail-Safe t s) (send_get-Safe _ k))))

  -- A verification fits both phases.
  pub verify-Safe :
      (t : Transaction) → Safe selected t → Safe selected (start_get_max_readback c verification t)
  verify-Safe t s = readback-Safe verification t s (record {
    chosen = s.chosen;
    guarded = s.guarded;
    honest = s.honest;
    phase = λ h. elim (s.phase h) [
      | inl p ↦ inl (record {
        no_percent = p.no_percent;
        not_restoring = refl;
        originals_read = p.originals_read;
      })
      | inr p ↦
          inr (record { zero_percent = p.zero_percent; not_preflight = refl; ready = p.ready })
    ];
  })

  send_pdu-Safe :
      (t : Transaction)
      → Safe selected t
      → ((entries : List (ℕ × ℕ)) × In (Effect.snapshot_created entries) t.log
          × Planned entries t.log t.current_brightness_destination)
      → Safe selected (send_pdu c (ok blackout_bytes) t)
  unfolding send_pdu
  send_pdu-Safe t s j =
      Safe-if (validate_destination c t.current_brightness_destination) _ t
        (effect-Safe _ t (refl, j) s) s

  send_percent-Safe :
      (t : Transaction) (percent : Option ℕ)
      → Safe selected t
      → Reading percent t.get_max_purpose t.blackout_original_values t.log
        ⊎ Writing percent t.get_max_purpose t.current_brightness_destination t.blackout_targets
            t.batch_write_queue t.batch_write_results t.log
      → Safe selected (send_percent c percent t)
  unfolding send_percent
  send_percent-Safe t none s p = fail-Safe t s
  send_percent-Safe t (some n) s (inl p) = absurd (no_value p.no_percent)
    where
      no_value : {n : ℕ} → some n ≡ none → ⊥
      no_value h = cc
  send_percent-Safe t (some n) s (inr p) =
      let u = record t { set_max_attempt = t.set_max_attempt + 1 } in
      let e = some-inj p.zero_percent in
      subst (λ (r : Result ValueError (List ℕ)). Safe selected (send_pdu c r u))
        (sym (ap brightness_pdu e ∙ blackout_pdu))
        (send_pdu-Safe u s (p.ready.entries, p.ready.created, p.ready.queued.0.1))

  pub send_max-Safe :
      (t : Transaction)
      → Safe selected t
      → t.finished ≡ none
      → Safe selected (send_max_brightness c t)
  unfolding send_max_brightness
  send_max-Safe t s u =
      Safe-if c.sender_node _ _ (send_percent-Safe t t.current_brightness_percent s (s.phase u))
        (fail-Safe t s)
