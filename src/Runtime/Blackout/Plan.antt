-- ===== src/Runtime/Blackout/Plan.antt =====
-- What sanlight_mesh/bluez_runtime.py plans after the preflight of a blackout.
use sanlight_mesh_mqtt_gatew.Base.{
  ℕ, ◌≡◌, ◌≢◌, ◌⊎◌, inl, inr, refl, sym, ap, subst, true, false, Option, none, some, List, [], ◌∷◌,
  In, All, all, Bool-cases, arith, ◌==◌, &&-split, Option-cases, some-inj,
}
use sanlight_mesh_mqtt_gatew.Runtime.{
  Command, Purpose, Finish, Setup, Effect, value_read, snapshot_created, Transaction,
  blackout_not_needed, blackout_preflight,
}
use sanlight_mesh_mqtt_gatew.Runtime.Send.{
  lookup, is_some, is_zero, value_of, changing_entries, already_off, with_zero, create_and_write,
  next_blackout_query,
}
use sanlight_mesh_mqtt_gatew.Runtime.Blackout.{Planned, Guarded, Reading, Waiting, IsSafe, Safe}
use sanlight_mesh_mqtt_gatew.Runtime.Blackout.Batch.{start_next-Safe}
use sanlight_mesh_mqtt_gatew.Runtime.Blackout.Moves.{
  finish-Safe, readback-Safe, Waiting-later, Safe-test, unfinished,
}

module _ (values : List (ℕ × ℕ)) (log : List Effect)
    (read : All (λ (p : ℕ × ℕ). In (value_read p.0 p.1) log) values) where
  -- A value that was stored was read.
  lookup-read : (a v : ℕ) → lookup values a ≡ some v → In (value_read a v) log
  lookup-read a v h = go values read h
    where
      go :
          (vs : List (ℕ × ℕ))
          → All (λ (p : ℕ × ℕ). In (value_read p.0 p.1) log) vs
          → lookup vs a ≡ some v
          → In (value_read a v) log
      go [] r h = cc
      go ((b, w) ∷ vs) r h = elim (Bool-cases (b == a)) [
        | inl e ↦
            let e' : b ≡ a = ground (arith, e) in
            let e'' : w ≡ v = some-inj (rw e at h) in
            subst (λ x. In (value_read x v) log) e' (subst (λ x. In (value_read b x) log) e'' r.0)
        | inr e ↦ go vs r.1 (rw e at h)
      ]

  -- What a value says of its node.
  known :
      (a : ℕ)
      → is_some (lookup values a) ≡ true
      → ((is_zero (lookup values a) ≡ true) × In (value_read a 0) log)
        ⊎ ((is_zero (lookup values a) ≡ false)
            × In (value_read a (value_of (lookup values a))) log
            × (value_of (lookup values a) ≢ 0))
  known a h = elim (Option-cases (lookup values a)) [
    | inl n ↦ absurd (missing (rw n at h))
    | inr (v, e) ↦ elim (Bool-cases (v == 0)) [
      | inl z ↦
          let z' : v ≡ 0 = ground (arith, z) in
          inl (rw (e, z), subst (λ x. In (value_read a x) log) z' (lookup-read a v e))
      | inr z ↦ let z' : v ≢ 0 = λ k. ground (arith, z, k) in rw e (inr (z, lookup-read a v e, z'))
    ]
  ]
    where
      missing : false ≡ true → ⊥
      missing h = cc

  -- The values of the entries were read, and are not 0.
  changing-read :
      (targets : List ℕ)
      → all (λ a. is_some (lookup values a)) targets ≡ true
      → All
          (λ (p : ℕ × ℕ). In (value_read p.0 p.1) log × (p.1 ≢ 0))
          (changing_entries values targets)
  unfolding changing_entries
  changing-read [] h = tt
  changing-read (a ∷ targets) h =
      let w = &&-split (is_some (lookup values a)) _ h in
      elim (known a w.0) [
        | inl k ↦ rw k.0 (changing-read targets w.1)
        | inr k ↦ rw k.0 ((k.1, k.2), changing-read targets w.1)
      ]

  -- Every target is off, or among the entries.
  changing-Waiting :
      (targets : List ℕ)
      → all (λ a. is_some (lookup values a)) targets ≡ true
      → (a : ℕ) → In a targets
      → Waiting (with_zero (changing_entries values targets)) (already_off values targets) log a
  unfolding changing_entries already_off with_zero
  changing-Waiting [] h a i = absurd i
  changing-Waiting (b ∷ targets) h a i =
      let w = &&-split (is_some (lookup values b)) _ h in
      elim (known b w.0) [
        | inl k ↦ rw k.0 (elim i [
          | inl e ↦
              subst
                (λ x.
                  Waiting (with_zero (changing_entries values targets))
                    ((b, 0) ∷ already_off values targets) log x)
                (sym e) (inl (inl refl, k.1))
          | inr j ↦ elim (changing-Waiting targets w.1 a j) [
            | inl q ↦ inl (inr q.0, q.1)
            | inr q ↦ inr q
          ]
        ])
        | inr k ↦ rw k.0 (elim i [
          | inl e ↦ inr (inl (ap (λ (x : ℕ). (x, 0)) e))
          | inr j ↦ elim (changing-Waiting targets w.1 a j) [ inl q ↦ inl q | inr q ↦ inr (inr q) ]
        ])
      ]

-- The writes of the entries are planned.
with_zero-Planned :
    (entries rest : List (ℕ × ℕ)) (log : List Effect)
    → ((p : ℕ × ℕ) → In p rest → In p entries)
    → All (λ (p : ℕ × ℕ). In (value_read p.0 p.1) log × (p.1 ≢ 0)) rest
    → All
        (λ (p : ℕ × ℕ). (p.1 ≡ 0) × Planned entries (snapshot_created entries ∷ log) p.0)
        (with_zero rest)
unfolding with_zero
with_zero-Planned entries [] log f h = tt
with_zero-Planned entries ((a, v) ∷ rest) log f h = (
  (refl, (v, f (a, v) (inl refl), inr h.0.0, h.0.1)),
  with_zero-Planned entries rest log (λ p i. f p (inr i)) h.1,
)

-- While the values are read, no more is to be known.
pub Reading-Safe :
    {selected : List ℕ} {finished : Option Finish} {percent : Option ℕ} {purpose : Option Purpose}
    {destination : ℕ} {originals : List (ℕ × ℕ)} {targets : List ℕ} {queue results : List (ℕ × ℕ)}
    {log : List Effect}
    → targets ≡ selected
    → Guarded log
    → finished ≡ none
    → Reading percent purpose originals log
    → IsSafe selected finished percent purpose destination originals targets queue results log
Reading-Safe {finished} ch g u p = record {
  chosen = ch;
  guarded = g;
  honest = λ r k h a i. absurd (unfinished finished u h);
  phase = λ h. inl p;
}

module _ {selected : List ℕ} (c : Setup) (is_blackout : c.command ≡ Command.blackout) where
  create-Safe :
      (entries : List (ℕ × ℕ)) (t : Transaction)
      → Safe selected t
      → t.finished ≡ none
      → All (λ (p : ℕ × ℕ). In (value_read p.0 p.1) t.log × (p.1 ≢ 0)) entries
      → ((a : ℕ)
          → In a t.blackout_targets
          → Waiting (with_zero entries) t.batch_write_results t.log a)
      → Safe selected (create_and_write c entries t)
  unfolding create_and_write
  create-Safe [] t s u r w = finish-Safe blackout_not_needed 0 t (λ q h. cc) s
  create-Safe (e ∷ entries) t s u r w =
      Safe-test (c.can_create (e ∷ entries)) _ _
        (λ k.
          start_next-Safe c is_blackout
            (record t {
              batch_write_queue = with_zero (e ∷ entries);
              log = snapshot_created (e ∷ entries) ∷ t.log;
            })
            s.chosen (tt, s.guarded)
            (record {
              entries = e ∷ entries;
              created = inl refl;
              queued = with_zero-Planned (e ∷ entries) (e ∷ entries) t.log (λ p i. i) r;
              progress = λ a i. Waiting-later (snapshot_created (e ∷ entries)) _ _ t.log a (w a i);
            })
            u)
        (λ k. s)

  -- The next query of the preflight, or the snapshot and the first write.
  pub next_query-Safe :
      (t : Transaction) (queue : List ℕ)
      → Safe selected t
      → t.finished ≡ none
      → Reading t.current_brightness_percent t.get_max_purpose t.blackout_original_values t.log
      → Safe selected (next_blackout_query c queue t)
  unfolding next_blackout_query
  next_query-Safe t (a ∷ queue) s u p =
      readback-Safe c blackout_preflight
        (record t { preflight_queue = queue; current_brightness_destination = a })
        (Reading-Safe s.chosen s.guarded u p)
        (Reading-Safe s.chosen s.guarded u (record {
          no_percent = p.no_percent;
          not_restoring = refl;
          originals_read = p.originals_read;
        }))
  next_query-Safe t [] s u p =
      let values = t.blackout_original_values in
      Safe-test (all (λ a. is_some (lookup values a)) t.blackout_targets) _ _
        (λ k.
          create-Safe (changing_entries values t.blackout_targets)
            (record t { batch_write_results = already_off values t.blackout_targets })
            (Reading-Safe s.chosen s.guarded u p) u
            (changing-read values t.log p.originals_read t.blackout_targets k)
            (changing-Waiting values t.log p.originals_read t.blackout_targets k))
        (λ k. s)
