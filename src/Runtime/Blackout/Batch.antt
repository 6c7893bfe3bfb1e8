-- ===== src/Runtime/Blackout/Batch.antt =====
-- That the batch of writes keeps the invariant of a blackout.
use sanlight_mesh_mqtt_gatew.Base.{
  ℕ, ◌≡◌, inl, inr, refl, sym, ap, subst, false, Option, none, some, List, [], ◌∷◌, In,
}
use sanlight_mesh_mqtt_gatew.Runtime.{
  Command, blackout, Setup, Finish, Effect, Transaction, is_finished, has_finished, finish,
  cancel_get_max_transaction, reset_brightness_write_transaction, blackout_verified,
}
use sanlight_mesh_mqtt_gatew.Runtime.Send.{
  finish_batch, next_write, start_next_batch_brightness_write,
}
use sanlight_mesh_mqtt_gatew.Runtime.Blackout.{Guarded, IsOff, Waiting, Ready, Safe}
use sanlight_mesh_mqtt_gatew.Runtime.Blackout.Moves.{some_message, unfinished, send_max-Safe}

message_of : (r q : List (ℕ × ℕ)) → blackout_verified r ≡ blackout_verified q → r ≡ q
message_of r q h = cc

-- The end is reported as it is.
verified-Safe :
    {selected : List ℕ} (t : Transaction)
    → t.blackout_targets ≡ selected
    → Guarded t.log
    → ((a : ℕ) → In a t.blackout_targets → IsOff t.batch_write_results t.log a)
    → t.finished ≡ none
    → Safe selected (finish (blackout_verified t.batch_write_results) 0 t)
unfolding finish
verified-Safe t ch g h u =
    let e : is_finished t ≡ false = ap has_finished u in
    rw e (record {
      chosen = ch;
      guarded = g;
      honest = λ r k w a i.
          let q = message_of t.batch_write_results r (some_message _ _ 0 k w) in
          subst (λ x. IsOff x t.log a) q (h a i);
      phase = λ w. absurd (unended w);
    })
  where
    unended : {f : Finish} → ◌≡◌ {A = Option Finish} (some f) none → ⊥
    unended h = cc

module _ {selected : List ℕ} (c : Setup) (is_blackout : c.command ≡ blackout) where
  -- The end of the writes.
  finish_batch-Safe :
      (t : Transaction) (command : Command)
      → command ≡ blackout
      → t.blackout_targets ≡ selected
      → Guarded t.log
      → ((a : ℕ) → In a t.blackout_targets → IsOff t.batch_write_results t.log a)
      → t.finished ≡ none
      → Safe selected (finish_batch c command t)
  unfolding finish_batch
  finish_batch-Safe t command e ch g h u =
      subst (λ (k : Command). Safe selected (finish_batch c k t)) (sym e) (verified-Safe t ch g h u)

  -- The next write, when the queue holds all that is left.
  pub next_write-Safe :
      (t : Transaction) (queue : List (ℕ × ℕ))
      → t.blackout_targets ≡ selected
      → Guarded t.log
      → Ready t.blackout_targets queue t.batch_write_results t.log
      → t.finished ≡ none
      → Safe selected (next_write c queue t)
  unfolding next_write reset_brightness_write_transaction cancel_get_max_transaction
  next_write-Safe t [] ch g r u =
      finish_batch-Safe t c.command is_blackout ch g
        (λ a i. no_queue t.batch_write_results t.log a (r.progress a i)) u
    where
      no_queue :
          (results : List (ℕ × ℕ)) (log : List Effect) (a : ℕ)
          → Waiting [] results log a
          → IsOff results log a
      no_queue results log a (inl h) = h
      no_queue results log a (inr h) = absurd h
  next_write-Safe t ((destination, percent) ∷ queue) ch g r u =
      send_max-Safe c
        (reset_brightness_write_transaction c (record t {
          batch_write_queue = queue;
          current_brightness_destination = destination;
          current_brightness_percent = some percent;
        }))
        (record {
          chosen = ch;
          guarded = g;
          honest = λ q k h a i. absurd (unfinished t.finished u h);
          phase = λ h. inr (record {
            zero_percent = ap some r.queued.0.0;
            not_preflight = refl;
            ready =
                subst
                  (λ x.
                    Ready t.blackout_targets ((destination, x) ∷ queue) t.batch_write_results t.log)
                  r.queued.0.0 r;
          });
        })
        u

  pub start_next-Safe :
      (t : Transaction)
      → t.blackout_targets ≡ selected
      → Guarded t.log
      → Ready t.blackout_targets t.batch_write_queue t.batch_write_results t.log
      → t.finished ≡ none
      → Safe selected (start_next_batch_brightness_write c t)
  unfolding start_next_batch_brightness_write
  start_next-Safe t ch g r u =
      let e : is_finished t ≡ false = ap has_finished u in
      rw e (next_write-Safe t t.batch_write_queue ch g r u)
