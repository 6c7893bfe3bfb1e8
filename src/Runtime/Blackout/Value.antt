-- ===== src/Runtime/Blackout/Value.antt =====
-- That a value which is read keeps the invariant of a blackout.
use sanlight_mesh_mqtt_gatew.Base.{
  ℕ, ◌≡◌, ◌⊎◌, inl, inr, refl, sym, ap, subst, ◌∙◌, ◌&&◌, ◌||◌, Bool, true, false, Option, none,
  some, List, [], ◌∷◌, ◌++◌, In, arith, ◌==◌, leb, ltb, if◌then◌else◌,
}
use sanlight_mesh_mqtt_gatew.Runtime.{
  Command, Setup, Purpose, query, verification, blackout_preflight, restore_preflight, Effect,
  value_read, get_max_retry_timer, Transaction, is_finished, finish, cancel_get_max_transaction,
  get_max_complete, blackout_aborted, verification_mismatch,
}
use sanlight_mesh_mqtt_gatew.Runtime.Send.{start_next_blackout_preflight_query}
use sanlight_mesh_mqtt_gatew.Runtime.Receive.{
  schedule_get_max_retry, requested, append_result, on_verified, on_readback, on_value,
  on_get_max_status, get_max_max_attempts,
}
use sanlight_mesh_mqtt_gatew.Runtime.Blackout.{Reading, Waiting, Ready, Writing, Safe}
use sanlight_mesh_mqtt_gatew.Runtime.Blackout.Batch.{start_next-Safe}
use sanlight_mesh_mqtt_gatew.Runtime.Blackout.Moves.{
  Safe-if, Safe-test, effect-Safe, finish-Safe, not_finished,
}
use sanlight_mesh_mqtt_gatew.Runtime.Blackout.Plan.{Reading-Safe, next_query-Safe}

In-append : {A : Type 0} (a : A) (xs ys : List A) → In a xs ⊎ In a ys → In a (xs ++ ys)
In-append a [] ys (inl h) = absurd h
In-append a [] ys (inr h) = h
In-append a (x ∷ xs) ys (inl (inl h)) = inl h
In-append a (x ∷ xs) ys (inl (inr h)) = inr (In-append a xs ys (inl h))
In-append a (x ∷ xs) ys (inr h) = inr (In-append a xs ys (inr h))

pub schedule-Safe :
    {selected : List ℕ} (t : Transaction)
    → Safe selected t
    → Safe selected (schedule_get_max_retry t)
unfolding schedule_get_max_retry
schedule-Safe t s =
    Safe-if (is_finished t || t.get_max_retry_pending) t _ s
      (effect-Safe get_max_retry_timer (record t { get_max_retry_pending = true }) tt s)

-- A target that was waiting, when the current node has been read to be off.
result-Waiting :
    (destination : ℕ) (queue results : List (ℕ × ℕ)) (log : List Effect) (a : ℕ)
    → In (value_read destination 0) log
    → Waiting ((destination, 0) ∷ queue) results log a
    → Waiting queue (results ++ (destination, 0) ∷ []) log a
result-Waiting d queue results log a r (inl (i, q)) =
    inl (In-append (a, 0) results ((d, 0) ∷ []) (inl i), q)
result-Waiting d queue results log a r (inr (inr i)) = inr i
result-Waiting d queue results log a r (inr (inl e)) =
    let e' : a ≡ d = ap (λ (p : ℕ × ℕ). p.0) e in
    inl (
      In-append (a, 0) results ((d, 0) ∷ []) (inr (inl e)),
      subst (λ x. In (value_read x 0) log) (sym e') r,
    )

pub first_false : (a b : Bool) → (a || b) ≡ false → a ≡ false
first_false false b h = refl
first_false true b h = cc

module _ {selected : List ℕ} (c : Setup) (is_blackout : c.command ≡ Command.blackout) where
  -- The node that is written has been read to be off.
  verified-Safe :
      (t : Transaction) (source value : ℕ)
      → Safe selected t
      → t.finished ≡ none
      → source ≡ t.current_brightness_destination
      → value ≡ 0
      → In (value_read source value) t.log
      → Ready t.blackout_targets
          ((t.current_brightness_destination, 0) ∷ t.batch_write_queue)
          t.batch_write_results
          t.log
      → Safe selected (on_verified c c.command source value t)
  unfolding on_verified cancel_get_max_transaction
  verified-Safe t source value s u e z i r =
      let d = t.current_brightness_destination in
      let i' : In (value_read d 0) t.log =
        subst (λ x. In (value_read x 0) t.log) e
          (subst (λ x. In (value_read source x) t.log) z i) in
      subst (λ (k : Command). Safe selected (on_verified c k source value t)) (sym is_blackout)
        (start_next-Safe c is_blackout (cancel_get_max_transaction (append_result source value t))
          s.chosen s.guarded
          (record {
            entries = r.entries;
            created = r.created;
            queued = r.queued.1;
            progress = λ a j.
                subst
                  (λ (p : ℕ × ℕ).
                    Waiting t.batch_write_queue (t.batch_write_results ++ p ∷ []) t.log a)
                  (ap (λ x. (x, 0)) (sym e) ∙ ap (λ x. (source, x)) (sym z))
                  (result-Waiting d t.batch_write_queue t.batch_write_results t.log a i'
                    (r.progress a j));
          })
          u)

  retry-Safe :
      (t : Transaction) (source value : ℕ)
      → Safe selected t
      → Safe selected (
          if ltb t.get_max_attempt get_max_max_attempts
          then schedule_get_max_retry (record t { get_max_status = none })
          else finish (verification_mismatch source value) 4 t)
  retry-Safe t source value s =
      Safe-if (ltb t.get_max_attempt get_max_max_attempts) _ _
        (schedule-Safe (record t { get_max_status = none }) s)
        (finish-Safe (verification_mismatch source value) 4 t (λ q h. cc) s)

  readback-Safe :
      (t : Transaction) (purpose : Option Purpose) (source value : ℕ)
      → Safe selected t
      → t.finished ≡ none
      → source ≡ t.current_brightness_destination
      → In (value_read source value) t.log
      → Reading t.current_brightness_percent purpose t.blackout_original_values t.log
        ⊎ Writing t.current_brightness_percent purpose t.current_brightness_destination
            t.blackout_targets t.batch_write_queue t.batch_write_results t.log
      → Safe selected (on_readback c source value t)
  unfolding on_readback
  readback-Safe t purpose source value s u e i (inl p) =
      let f : requested t.current_brightness_percent value ≡ false =
        ap (λ q. requested q value) p.no_percent in
      rw f (retry-Safe t source value s)
  readback-Safe t purpose source value s u e i (inr p) =
      Safe-test (requested t.current_brightness_percent value) _ _
        (λ k.
          let z : (value == 0) ≡ true = sym (ap (λ q. requested q value) p.zero_percent) ∙ k in
          verified-Safe t source value s u e (ground (arith, z)) i p.ready)
        (λ k. retry-Safe t source value s)

  -- A value, whatever it was read for.
  value-Safe :
      (t : Transaction) (purpose : Option Purpose) (source value : ℕ)
      → Safe selected t
      → t.finished ≡ none
      → source ≡ t.current_brightness_destination
      → In (value_read source value) t.log
      → Reading t.current_brightness_percent purpose t.blackout_original_values t.log
        ⊎ Writing t.current_brightness_percent purpose t.current_brightness_destination
            t.blackout_targets t.batch_write_queue t.batch_write_results t.log
      → Safe selected (on_value c purpose source value t)
  unfolding on_value start_next_blackout_preflight_query cancel_get_max_transaction
  value-Safe t (some query) source value s u e i p =
      finish-Safe (get_max_complete source value) 0 t (λ q h. cc) s
  value-Safe t (some restore_preflight) source value s u e i (inl p) =
      absurd (restoring p.not_restoring)
    where
      restoring : true ≡ false → ⊥
      restoring h = cc
  value-Safe t (some restore_preflight) source value s u e i (inr p) =
      absurd (restoring p.not_preflight)
    where
      restoring : true ≡ false → ⊥
      restoring h = cc
  value-Safe t (some blackout_preflight) source value s u e i (inr p) =
      absurd (restoring p.not_preflight)
    where
      restoring : true ≡ false → ⊥
      restoring h = cc
  value-Safe t (some blackout_preflight) source value s u e i (inl p) =
      let next =
        cancel_get_max_transaction
          (record t { blackout_original_values = (source, value) ∷ t.blackout_original_values }) in
      let reading : Reading t.current_brightness_percent none
          ((source, value) ∷ t.blackout_original_values) t.log =
        record {
          no_percent = p.no_percent;
          not_restoring = refl;
          originals_read = (i, p.originals_read);
        } in
      Safe-if (leb 1 value && leb value 19) _ _
        (finish-Safe (blackout_aborted source value) 2 t (λ q h. cc) s)
        (next_query-Safe c is_blackout next t.preflight_queue
          (Reading-Safe s.chosen s.guarded u reading) u reading)
  value-Safe t (some verification) source value s u e i p =
      readback-Safe t (some verification) source value s u e i p
  value-Safe t none source value s u e i p = readback-Safe t none source value s u e i p

  pub status-Safe :
      (t : Transaction) (source value : ℕ)
      → Safe selected t
      → source ≡ t.current_brightness_destination
      → Safe selected (on_get_max_status c source value t)
  unfolding on_get_max_status
  status-Safe t source value s e =
      let u = record t {
        get_max_status = some (source, value);
        log = value_read source value ∷ t.log;
      } in
      let k = effect-Safe (value_read source value) t tt s in
      Safe-test (is_finished t) t (on_value c t.get_max_purpose source value u) (λ h. s)
        (λ h.
          value-Safe u t.get_max_purpose source value k (not_finished t h) e (inl refl)
            (k.phase (not_finished t h)))
