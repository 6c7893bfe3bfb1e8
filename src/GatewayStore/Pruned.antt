-- ===== src/GatewayStore/Pruned.antt =====
-- What `prune` of sanlight_mesh/gateway_store.py keeps.
use sanlight_mesh_mqtt_gatew.Base.{
  In, ℕ, ◌≡◌, ◌≤◌, ◌⊎◌, inl, inr, refl, sym, ap, subst, true, false, Option, some, List, [], ◌∷◌,
  arith, Result, ok, err, length, take, String, leb, ok-injective, Bool-cases, zero, suc, ◌&&◌,
  &&-split, length-take, leb→le, le→leb, Option-cases,
}
use sanlight_mesh_mqtt_gatew.Value.{Value, object, null, Fields, end, field, get, value_or}
use sanlight_mesh_mqtt_gatew.GatewayProtocol.{Stamp}
use sanlight_mesh_mqtt_gatew.Watchdog.Incident.{sub_seconds, as_mapping}
use sanlight_mesh_mqtt_gatew.Watchdog.Safe.{as_mapping-some}
use sanlight_mesh_mqtt_gatew.GatewayStore.{
  GatewayStore, Processed, insert, sort, as_fields, completed_at, valid, prune, is_object,
}

abbrev pub HasField : Fields → String → Value → Type 0
HasField end k v = ⊥
HasField (field j w fs) k v = ((j ≡ k) × (w ≡ v)) ⊎ HasField fs k v

-- A bound on every time in the list.
abbrev Below : ℕ → List Processed → Type 0
Below t [] = Unit
Below t (q ∷ qs) = (q.timestamp ≤ t) × Below t qs

abbrev Descending : List Processed → Type 0
Descending [] = Unit
Descending (q ∷ qs) = Below q.timestamp qs × Descending qs

In-insert : (a p : Processed) (qs : List Processed) → In a (insert p qs) → (a ≡ p) ⊎ In a qs
unfolding insert
In-insert a p [] i = i
In-insert a p (q ∷ qs) i = elim (Bool-cases (leb q.timestamp p.timestamp)) [
  | inl e ↦ rw e at i
  | inr e ↦ elim (rw e at i) [
    | inl h ↦ inr (inl h)
    | inr h ↦ elim (In-insert a p qs h) [ inl g ↦ inl g | inr g ↦ inr (inr g) ]
  ]
]

insert-In : (a p : Processed) (qs : List Processed) → (a ≡ p) ⊎ In a qs → In a (insert p qs)
unfolding insert
insert-In a p [] i = i
insert-In a p (q ∷ qs) i = elim (Bool-cases (leb q.timestamp p.timestamp)) [
  | inl e ↦ rw e i
  | inr e ↦ rw e (elim i [
    | inl h ↦ inr (insert-In a p qs (inl h))
    | inr (inl h) ↦ inl h
    | inr (inr h) ↦ inr (insert-In a p qs (inr h))
  ])
]

In-sort : (a : Processed) (ps : List Processed) → In a (sort ps) → In a ps
unfolding sort
In-sort a [] i = i
In-sort a (p ∷ ps) i = elim (In-insert a p (sort ps) i) [
  | inl h ↦ inl h
  | inr h ↦ inr (In-sort a ps h)
]

sort-In : (a : Processed) (ps : List Processed) → In a ps → In a (sort ps)
unfolding sort
sort-In a [] i = i
sort-In a (p ∷ ps) (inl h) = insert-In a p (sort ps) (inl h)
sort-In a (p ∷ ps) (inr h) = insert-In a p (sort ps) (inr (sort-In a ps h))

Below-insert :
    (t : ℕ) (p : Processed) (qs : List Processed)
    → p.timestamp ≤ t
    → Below t qs
    → Below t (insert p qs)
unfolding insert
Below-insert t p [] h b = (h, b)
Below-insert t p (q ∷ qs) h b = ground (arith, h, b, Below-insert t p qs h b.1)

Below-le : (s t : ℕ) (qs : List Processed) → s ≤ t → Below s qs → Below t qs
Below-le s t [] h b = tt
Below-le s t (q ∷ qs) h b = (omega (arith, h, b.0), Below-le s t qs h b.1)

insert-Descending : (p : Processed) (qs : List Processed) → Descending qs → Descending (insert p qs)
unfolding insert
insert-Descending p [] d = (tt, tt)
insert-Descending p (q ∷ qs) d = elim (Bool-cases (leb q.timestamp p.timestamp)) [
  | inl e ↦ let l = leb→le _ _ e in rw e ((l, Below-le q.timestamp p.timestamp qs l d.0), d)
  | inr e ↦
      let l : p.timestamp ≤ q.timestamp = above _ _ e in
      rw e (Below-insert q.timestamp p qs l d.0, insert-Descending p qs d.1)
]
  where
    above : (a b : ℕ) → leb a b ≡ false → b ≤ a
    above a b h = ground arith

sort-Descending : (ps : List Processed) → Descending (sort ps)
unfolding sort
sort-Descending [] = tt
sort-Descending (p ∷ ps) = insert-Descending p (sort ps) (sort-Descending ps)

Below-In : (t : ℕ) (a : Processed) (qs : List Processed) → Below t qs → In a qs → a.timestamp ≤ t
Below-In t a [] b h = absurd h
Below-In t a (q ∷ qs) b (inl h) = subst (λ (x : Processed). x.timestamp ≤ t) (sym h) b.0
Below-In t a (q ∷ qs) b (inr h) = Below-In t a qs b.1 h

In-take : (n : ℕ) (a : Processed) (qs : List Processed) → In a (take n qs) → In a qs
In-take zero a qs i = absurd i
In-take (suc n) a [] i = i
In-take (suc n) a (q ∷ qs) (inl h) = inl h
In-take (suc n) a (q ∷ qs) (inr h) = inr (In-take n a qs h)

-- A member is taken, or there is no room and everything taken is at least as new.
take-newest :
    (n : ℕ) (a : Processed) (qs : List Processed)
    → Descending qs
    → In a qs
    → In a (take n qs)
      ⊎ ((length (take n qs) ≡ n)
          × ((b : Processed) → In b (take n qs) → a.timestamp ≤ b.timestamp))
take-newest zero a qs d i = inr (refl, λ b h. absurd h)
take-newest (suc n) a [] d h = absurd h
take-newest (suc n) a (q ∷ qs) d (inl h) = inl (inl h)
take-newest (suc n) a (q ∷ qs) d (inr h) = elim (take-newest n a qs d.1 h) [
  | inl g ↦ inl (inr g)
  | inr g ↦ inr (
    ap suc g.0,
    λ b k. elim k [
      | inl e ↦ subst (λ (x : Processed). a.timestamp ≤ x.timestamp) (sym e) (Below-In _ a qs d.0 h)
      | inr m ↦ g.1 b m
    ],
  )
]

Result-cases : {E A : Type 0} (r : Result E A) → ((a : A) × (r ≡ ok a)) ⊎ ((e : E) × (r ≡ err e))
Result-cases (ok a) = inl (a, refl)
Result-cases (err e) = inr (e, refl)

module _ (fromisoformat : List ℕ → Option Stamp) where
  -- A processed command whose time can be read, is not before `cutoff`, and that has a result.
  pub record IsFresh (processed : Fields) (cutoff : ℕ) (p : Processed) : Type 0 where
    pub stored : HasField processed p.command_id (object p.result_record)
    pub timed : completed_at fromisoformat p.result_record ≡ ok p.timestamp
    pub recent : cutoff ≤ p.timestamp
    pub has_result : is_object (value_or (get p.result_record "result") null) ≡ true

  later :
      (k : String) (v : Value) (fs : Fields) (cutoff : ℕ) (p : Processed)
      → IsFresh fs cutoff p
      → IsFresh (field k v fs) cutoff p
  later k v fs cutoff p f = record {
    stored = inr f.stored;
    timed = f.timed;
    recent = f.recent;
    has_result = f.has_result;
  }

  -- A stored value is skipped, or kept as `p`.
  kept_or_skipped :
      (k : String) (v : Value) (fs : Fields) (cutoff : ℕ)
      → (valid fromisoformat (field k v fs) cutoff ≡ valid fromisoformat fs cutoff)
        ⊎ ((p : Processed) × (valid fromisoformat (field k v fs) cutoff
              ≡ p ∷ valid fromisoformat fs cutoff)
            × (p.command_id ≡ k)
            × (v ≡ object p.result_record)
            × (completed_at fromisoformat p.result_record ≡ ok p.timestamp)
            × (cutoff ≤ p.timestamp)
            × (is_object (value_or (get p.result_record "result") null) ≡ true))
  unfolding valid
  kept_or_skipped k v fs cutoff = elim (Option-cases (as_mapping v)) [
    | inl n ↦ inl (rw n)
    | inr (r, e) ↦ elim (Result-cases (completed_at fromisoformat r)) [
      | inr (x, c) ↦ inl (rw (e, c))
      | inl (t, c) ↦
          elim (Bool-cases (leb cutoff t && is_object (value_or (get r "result") null))) [
            | inr b ↦ inl (rw (e, c, b))
            | inl b ↦
                let w = &&-split (leb cutoff t) _ b in
                inr (
                  record { command_id = k; result_record = r; timestamp = t },
                  rw (e, c, b),
                  refl,
                  as_mapping-some v r e,
                  c,
                  leb→le cutoff t w.0,
                  w.1,
                )
          ]
    ]
  ]

  valid_end :
      (p : Processed) (cutoff : ℕ) → In p (valid fromisoformat end cutoff) → IsFresh end cutoff p
  unfolding valid
  valid_end p cutoff i = absurd i

  valid-In :
      (p : Processed) (fs : Fields) (cutoff : ℕ)
      → In p (valid fromisoformat fs cutoff)
      → IsFresh fs cutoff p
  valid-In p end cutoff i = valid_end p cutoff i
  valid-In p (field k v fs) cutoff i = elim (kept_or_skipped k v fs cutoff) [
    | inl e ↦ later k v fs cutoff p (valid-In p fs cutoff (rw e at i))
    | inr (q, e, n, o, c, l, r) ↦ elim (rw e at i) [
      | inr j ↦ later k v fs cutoff p (valid-In p fs cutoff j)
      | inl h ↦
          subst (IsFresh (field k v fs) cutoff) (sym h)
            (record { stored = inl (sym n, o); timed = c; recent = l; has_result = r })
    ]
  ]

  first-In :
      (p : Processed) (k : String) (v : Value) (fs : Fields) (cutoff : ℕ)
      → IsFresh (field k v fs) cutoff p
      → k ≡ p.command_id
      → v ≡ object p.result_record
      → In p (valid fromisoformat (field k v fs) cutoff)
  unfolding valid
  first-In p k v fs cutoff f n o =
      let m : as_mapping v ≡ some p.result_record = ap as_mapping o in
      let l : leb cutoff p.timestamp ≡ true = le→leb cutoff p.timestamp f.recent in
      rw (m, f.timed, l, f.has_result)
        (inl (
          ap
            (λ (x : String). record {
              command_id = x;
              result_record = p.result_record;
              timestamp = p.timestamp;
            })
            (sym n)))

  In-valid :
      (p : Processed) (fs : Fields) (cutoff : ℕ)
      → HasField fs p.command_id (object p.result_record)
      → IsFresh fs cutoff p
      → In p (valid fromisoformat fs cutoff)
  In-valid p end cutoff h f = absurd h
  In-valid p (field k v fs) cutoff (inl h) f = first-In p k v fs cutoff f h.0 h.1
  In-valid p (field k v fs) cutoff (inr h) f =
      let ih =
        In-valid p fs cutoff h
          (record { stored = h; timed = f.timed; recent = f.recent; has_result = f.has_result }) in
      elim (kept_or_skipped k v fs cutoff) [ inl e ↦ rw e ih | inr w ↦ rw w.1 (inr ih) ]

  -- What is kept of the processed commands.
  pub record IsPruned (store pruned : GatewayStore) (cutoff : ℕ) : Type 0 where
    pub kept : List Processed
    pub written : pruned ≡ record store { processed = as_fields kept }
    pub bounded : length kept ≤ store.dedup_max_entries
    pub fresh : (p : Processed) → In p kept → IsFresh store.processed cutoff p
    pub newest :
        (p : Processed)
        → IsFresh store.processed cutoff p
        → In p kept
          ⊎ ((length kept ≡ store.dedup_max_entries)
              × ((q : Processed) → In q kept → p.timestamp ≤ q.timestamp))

  -- `prune` changes only the processed commands. It keeps no more of them than the limit, and only
  -- fresh ones that it had; and it drops a fresh one only if the limit is reached and all that it
  -- keeps are at least as new.
  pub prune-IsPruned :
      (store pruned : GatewayStore) (current cutoff : ℕ)
      → sub_seconds current store.dedup_ttl_seconds ≡ ok cutoff
      → prune fromisoformat store current ≡ ok pruned
      → IsPruned store pruned cutoff
  unfolding prune
  prune-IsPruned store pruned current cutoff c h =
      let all = valid fromisoformat store.processed cutoff in
      record {
        kept = take store.dedup_max_entries (sort all);
        written = sym (ok-injective (rw c at h));
        bounded = omega (arith, length-take store.dedup_max_entries (sort all));
        fresh = λ p i.
            valid-In p store.processed cutoff
              (In-sort p all (In-take store.dedup_max_entries p (sort all) i));
        newest = λ p f.
            take-newest store.dedup_max_entries p (sort all) (sort-Descending all)
              (sort-In p all (In-valid p store.processed cutoff f.stored f));
      }
