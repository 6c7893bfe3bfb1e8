-- ===== src/Service/Released.antt =====
-- The `finally` block of the worker of sanlight_mesh/gateway_service.py.
use sanlight_mesh_mqtt_gatew.Base.{
  ◌≡◌, refl, Bool, true, false, ◌&&◌, Bool-cases, inl, inr, Option, none, some, List, str_eq,
  eq_iff, sym, subst,
}
use sanlight_mesh_mqtt_gatew.GatewayProtocol.{GatewayCommand}
use sanlight_mesh_mqtt_gatew.CommandQueue.{
  CommandQueue, SupersededCommand, contains, done, coalesce_set_max,
}
use sanlight_mesh_mqtt_gatew.CommandQueue.Count.{contains_id-discard}
use sanlight_mesh_mqtt_gatew.Service.{Config, World, Environment}
use sanlight_mesh_mqtt_gatew.Service.Worker.{release, after_coalescing, process_next}

discard_self : (c : GatewayCommand) (q : CommandQueue) → contains (done q c) c.command_id ≡ false
unfolding contains done
discard_self c q =
    let e : str_eq c.command_id c.command_id ≡ true = (eq_iff c.command_id c.command_id).1 refl in
    rw (contains_id-discard c.command_id c.command_id q.pending_ids, e)

not_and : (a b : Bool) → b ≡ false → (a && b) ≡ false
not_and true b h = h
not_and false b h = refl

done_keeps :
    (c d : GatewayCommand) (q : CommandQueue)
    → contains q c.command_id ≡ false
    → contains (done q d) c.command_id ≡ false
unfolding contains done
done_keeps c d q h =
    rw (contains_id-discard d.command_id c.command_id q.pending_ids) (not_and _ _ h)

-- The command that is executed: the one `coalesce_set_max` selects, or the first if it raises.
abbrev pub executed_for :
    GatewayCommand → Option (GatewayCommand × List SupersededCommand) → GatewayCommand
executed_for original none = original
executed_for original (some (c, superseded)) = c

module _ (env : Environment) where
  release-contains :
      (original c : GatewayCommand) (w : World)
      → contains (release env original c w).queue original.command_id ≡ false
  unfolding release
  release-contains original c w = elim (Bool-cases (str_eq c.command_id original.command_id)) [
    | inl h ↦ rw h (discard_self original w.queue)
    | inr h ↦ rw h (done_keeps original c _ (discard_self original w.queue))
  ]

  release-contains_executed :
      (original c : GatewayCommand) (w : World)
      → contains (release env original c w).queue c.command_id ≡ false
  unfolding release
  release-contains_executed original c w =
      elim (Bool-cases (str_eq c.command_id original.command_id)) [
        | inl h ↦
            let same : original.command_id ≡ c.command_id =
              sym ((eq_iff c.command_id original.command_id).0 h) in
            rw h (
              subst (λ i. contains (done w.queue original) i ≡ false) same
                (discard_self original w.queue))
        | inr h ↦ rw h (discard_self c (done w.queue original))
      ]

  after_coalescing-contains :
      (config : Config) (original : GatewayCommand)
      (coalesced : Option (GatewayCommand × List SupersededCommand)) (w : World)
      → (contains (after_coalescing env config original coalesced w).queue original.command_id
          ≡ false)
        × (contains
              (after_coalescing env config original coalesced w).queue
              (executed_for original coalesced).command_id
            ≡ false)
  unfolding after_coalescing
  after_coalescing-contains config original none w =
      (release-contains original original _, release-contains original original _)
  after_coalescing-contains config original (some (c, superseded)) w =
      (release-contains original c _, release-contains_executed original c _)

  -- However the handling of a command ends, with an exception too, neither its identifier nor that of
  -- the set-max which replaced it is pending afterwards.
  pub process_next-released :
      (config : Config) (original : GatewayCommand) (w : World)
      → (contains (process_next env config original w).queue original.command_id ≡ false)
        × (contains
              (process_next env config original w).queue
              (executed_for original (
                (coalesce_set_max w.queue original config.coalesce_window
                  (env.meanwhile w.log)).1)).command_id
            ≡ false)
  unfolding process_next
  process_next-released config original w = after_coalescing-contains config original _ _
