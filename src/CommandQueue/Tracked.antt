-- ===== src/CommandQueue/Tracked.antt =====
-- The pending identifiers against the queue: which commands are known to be on their way.
use sanlight_mesh_mqtt_gatew.Base.{
  ℕ, suc, ◌+◌, ◌≤◌, ◌≡◌, refl, sym, ap, ◌∙◌, ◌⊎◌, inl, inr, Bool, true, false, not, ◌&&◌, ◌||◌,
  String, List, [], ◌∷◌, ◌++◌, length, Bool-cases, arith, if◌then◌else◌, str_eq, eq_iff, ltb, ◌==◌,
  length-append, append-nil, append_assoc, subst, some-inj, Option, some, none,
}
use sanlight_mesh_mqtt_gatew.GatewayProtocol.{GatewayCommand}
use sanlight_mesh_mqtt_gatew.CommandQueue.{
  CommandQueue, SupersededCommand, Selection, contains_id, discard_all, select, put, get, done,
  is_full, put_back, append_item, coalesce_set_max, is_set_max, settle,
}
use sanlight_mesh_mqtt_gatew.CommandQueue.Select.{commands}
use sanlight_mesh_mqtt_gatew.CommandQueue.Count.{
  count_id, count_id-append, count_snoc, contains_id-add, contains_id-discard,
  contains_id-discard_all, select_count,
}

-- The pending identifiers are exactly those of the commands that are executed or queued, which all
-- differ, and the queue keeps its bound.
pub record IsTracked (q : CommandQueue) (executing : List GatewayCommand) : Type 0 where
  pub distinct : (s : String) → count_id s (executing ++ q.items) ≤ 1
  pub tracked :
      (s : String) → contains_id q.pending_ids s ≡ ltb 0 (count_id s (executing ++ q.items))
  pub bounded : (q.max_size ≡ 0) ⊎ (length q.items ≤ q.max_size)

room :
    (q : CommandQueue) (c : GatewayCommand)
    → is_full q ≡ false
    → (q.max_size ≡ 0) ⊎ (length q.items ≤ q.max_size)
    → (q.max_size ≡ 0) ⊎ (length (q.items ++ c ∷ []) ≤ q.max_size)
unfolding is_full
room q c f (inl z) = inl z
room q c f (inr l) = elim (Bool-cases (ltb 0 q.max_size)) [
  | inl p ↦ inr (ground (arith, length-append q.items (c ∷ [])))
  | inr n ↦ inl (ground arith)
]

-- `put` keeps the bookkeeping exact, whether it queues the command, ignores it as pending or raises
-- `queue.Full`.
pub put-IsTracked :
    (q : CommandQueue) (executing : List GatewayCommand) (c : GatewayCommand)
    → IsTracked q executing
    → IsTracked (put q c).0 executing
unfolding put
put-IsTracked q executing c t = elim (Bool-cases (contains_id q.pending_ids c.command_id)) [
  | inl h ↦ rw h t
  | inr h ↦ elim (Bool-cases (is_full q)) [
    | inl f ↦ rw (h, f) t
    | inr f ↦
        rw (h, f)
          (record {
            distinct = λ s. ground (
              arith,
              count_snoc s executing q.items c,
              t.tracked s,
              t.distinct s,
              eq_iff c.command_id s,
            );
            tracked = λ s. ground (
              arith,
              count_snoc s executing q.items c,
              t.tracked s,
              contains_id-add c.command_id s q.pending_ids,
            );
            bounded = room q c f t.bounded;
          })
  ]
]

-- The restoring loop, if it completes, has put every command back within the bound.
pub put_back-completed :
    (q : CommandQueue) (cs : List GatewayCommand)
    → (put_back q cs).1 ≡ true
    → ((q.max_size ≡ 0) ⊎ (length q.items ≤ q.max_size))
    → ((put_back q cs).0 ≡ record q { items = q.items ++ cs })
      × ((q.max_size ≡ 0) ⊎ (length (q.items ++ cs) ≤ q.max_size))
unfolding put_back
put_back-completed q [] h b = (
  ap (λ l. record q { items = l }) (sym (append-nil q.items)),
  subst (λ l. (q.max_size ≡ 0) ⊎ (length l ≤ q.max_size)) (sym (append-nil q.items)) b,
)
put_back-completed q (c ∷ cs) h b = elim (Bool-cases (is_full q)) [
  | inl f ↦ cc (rw (f, put_back) at h)
  | inr f ↦
      let ih = put_back-completed (append_item q c) cs (rw (f, put_back) at h) (room q c f b) in
      let e = append_assoc q.items (c ∷ []) cs in
      (
        rw f (ih.0 ∙ ap (λ l. record q { items = l }) e),
        subst (λ l. (q.max_size ≡ 0) ⊎ (length l ≤ q.max_size)) e ih.1,
      )
]

List-cases :
    (xs : List GatewayCommand)
    → (xs ≡ []) ⊎ ((y : GatewayCommand) × ((ys : List GatewayCommand) × (xs ≡ y ∷ ys)))
List-cases [] = inl refl
List-cases (y ∷ ys) = inr (y, (ys, refl))

shorter :
    (q : CommandQueue) (y : GatewayCommand) (ys : List GatewayCommand)
    → q.items ≡ y ∷ ys
    → (q.max_size ≡ 0) ⊎ (length q.items ≤ q.max_size)
    → (q.max_size ≡ 0) ⊎ (length ys ≤ q.max_size)
shorter q y ys e (inl z) = inl z
shorter q y ys e (inr l) = inr (omega (arith, ap length e))

-- `get` moves the first command from the queue to its execution.
pub get-IsTracked :
    (q q' : CommandQueue) (c : GatewayCommand)
    → IsTracked q []
    → get q ≡ some (c, q')
    → IsTracked q' (c ∷ [])
unfolding get
get-IsTracked q q' c t h = elim (List-cases q.items) [
  | inl e ↦ cc (rw (e, get) at h)
  | inr (y, w) ↦
      subst (λ (p : GatewayCommand × CommandQueue). IsTracked p.1 (p.0 ∷ []))
        (some-inj (rw (w.1, get) at h))
        (record {
          distinct = λ s. subst (λ l. count_id s l ≤ 1) w.1 (t.distinct s);
          tracked = λ s.
              subst (λ l. contains_id q.pending_ids s ≡ ltb 0 (count_id s l)) w.1 (t.tracked s);
          bounded = shorter q y w.0 w.1 t.bounded;
        })
]

-- `done` forgets the executed command alone.
pub done-IsTracked :
    (q : CommandQueue) (c : GatewayCommand) → IsTracked q (c ∷ []) → IsTracked (done q c) []
unfolding done
done-IsTracked q c t = record {
  distinct = λ s. ground (arith, t.distinct s);
  tracked = λ s.
      ground (arith, contains_id-discard c.command_id s q.pending_ids, t.tracked s, t.distinct s);
  bounded = t.bounded;
}

-- An identifier is pending after the block under the lock if its command is selected or queued:
-- `kept`, `gone` and `all` count it among those, the superseded and all commands.
still_pending :
    (kept gone all queued : ℕ) (pending selected after left : Bool)
    → after ≡ (selected || left)
    → left ≡ (gone == 0 && pending)
    → pending ≡ ltb 0 all
    → all ≤ 1
    → kept + gone ≡ all
    → kept ≡ (if selected then suc queued else queued)
    → after ≡ ltb 0 kept
still_pending kept gone all queued pending selected after left a b c d e f = ground arith

-- What `coalesce_set_max` leaves to be executed is tracked.
abbrev Resolved : CommandQueue × Option (GatewayCommand × List SupersededCommand) → Type 0
Resolved r = elim r.1 [ none ↦ Unit | some s ↦ IsTracked r.0 (s.0 ∷ []) ]

module _ (first : GatewayCommand) (drained : List GatewayCommand) (m : CommandQueue)
    (t : IsTracked m (first ∷ drained)) where
  selection : Selection
  selection = select first.target first drained

  balance :
      (s : String)
      → count_id s (selection.selected ∷ (m.items ++ selection.restore))
          + count_id s (commands selection.superseded)
        ≡ count_id s ((first ∷ drained) ++ m.items)
  unfolding selection
  balance s =
      let r = select first.target first drained in
      let parts : count_id s (r.selected ∷ (m.items ++ r.restore))
          ≡ count_id s (r.selected ∷ []) + count_id s (m.items ++ r.restore) =
        count_id-append s (r.selected ∷ []) (m.items ++ r.restore) in
      omega (
        arith,
        parts,
        select_count s first.target first drained,
        count_id-append s m.items r.restore,
        count_id-append s (first ∷ drained) m.items,
      )

  settled-IsTracked :
      (put_back m selection.restore).1 ≡ true
      → IsTracked (settle (put_back m selection.restore).0 selection) (selection.selected ∷ [])
  unfolding settle
  settled-IsTracked completed =
      let (e, b) = put_back-completed m selection.restore completed t.bounded in
      rw e (record {
        distinct = λ s. omega (arith, balance s, t.distinct s);
        tracked = λ s.
            still_pending (count_id s (selection.selected ∷ (m.items ++ selection.restore)))
              (count_id s (commands selection.superseded))
              (count_id s ((first ∷ drained) ++ m.items))
              (count_id s (m.items ++ selection.restore)) (contains_id m.pending_ids s)
              (str_eq selection.selected.command_id s) _ _
              (contains_id-add selection.selected.command_id s
                (discard_all selection.superseded m.pending_ids))
              (contains_id-discard_all selection.superseded s m.pending_ids) (t.tracked s)
              (t.distinct s) (balance s) refl;
        bounded = b;
      })

  restored-Resolved : Resolved (
      if (put_back m selection.restore).1
      then (
        settle (put_back m selection.restore).0 selection,
        some (selection.selected, selection.superseded),
      )
      else ((put_back m selection.restore).0, none))
  restored-Resolved = elim (Bool-cases (put_back m selection.restore).1) [
    | inl c ↦ rw c (settled-IsTracked c)
    | inr c ↦ rw c tt
  ]

drained-IsTracked :
    (q : CommandQueue) (first : GatewayCommand)
    → IsTracked q (first ∷ [])
    → IsTracked (record q { items = [] }) (first ∷ q.items)
drained-IsTracked q first t = record {
  distinct = λ s. rw (append-nil q.items) (t.distinct s);
  tracked = λ s. rw (append-nil q.items) (t.tracked s);
  bounded = inr (omega arith);
}

coalesced-Resolved :
    (q : CommandQueue) (first : GatewayCommand) (wait : ℕ) (meanwhile : CommandQueue → CommandQueue)
    → ((m : CommandQueue)
        → IsTracked m (first ∷ q.items)
        → IsTracked (meanwhile m) (first ∷ q.items))
    → IsTracked q (first ∷ [])
    → Resolved (coalesce_set_max q first wait meanwhile)
unfolding coalesce_set_max selection
coalesced-Resolved q first wait meanwhile keep t =
    elim (Bool-cases (not (is_set_max first.action) || wait == 0)) [
      | inl b ↦ rw b t
      | inr b ↦ rw b (
          restored-Resolved first q.items (meanwhile (record q { items = [] }))
            (keep (record q { items = [] }) (drained-IsTracked q first t)))
    ]

-- If what other threads do in between keeps the bookkeeping exact, with the drained commands still
-- pending, then `coalesce_set_max`, when it returns, leaves exactly the selected command to be
-- executed and what is queued: the superseded identifiers are forgotten, and no other.
pub coalesce-IsTracked :
    (q q' : CommandQueue) (first selected : GatewayCommand) (wait : ℕ)
    (meanwhile : CommandQueue → CommandQueue) (superseded : List SupersededCommand)
    → ((m : CommandQueue)
        → IsTracked m (first ∷ q.items)
        → IsTracked (meanwhile m) (first ∷ q.items))
    → IsTracked q (first ∷ [])
    → coalesce_set_max q first wait meanwhile ≡ (q', some (selected, superseded))
    → IsTracked q' (selected ∷ [])
coalesce-IsTracked q q' first selected wait meanwhile superseded keep t h =
    subst Resolved h (coalesced-Resolved q first wait meanwhile keep t)
