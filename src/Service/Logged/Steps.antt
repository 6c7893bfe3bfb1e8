-- ===== src/Service/Logged/Steps.antt =====
-- The methods of sanlight_mesh/gateway_service.py that remember, publish and record keep the log
-- justified.
use sanlight_mesh_mqtt_gatew.Base.{ℕ, Bool, Bool-cases, Option-cases, String, List, In, inl, inr}
use sanlight_mesh_mqtt_gatew.Value.{Fields}
use sanlight_mesh_mqtt_gatew.GatewayProtocol.{GatewayCommand}
use sanlight_mesh_mqtt_gatew.GatewayStore.{GatewayStore}
use sanlight_mesh_mqtt_gatew.GatewayStore.Node.{node_record, get_node, clear_live}
use sanlight_mesh_mqtt_gatew.Protocol.Live.{LiveStatus}
use sanlight_mesh_mqtt_gatew.Protocol.Daylight.{DaylightStatus}
use sanlight_mesh_mqtt_gatew.Service.{
  Config, ExecutionResult, store_saved, remembered, node_published, World, Environment,
}
use sanlight_mesh_mqtt_gatew.Service.Run.{return}
use sanlight_mesh_mqtt_gatew.Service.Report.{remember, publish_and_remember, respond}
use sanlight_mesh_mqtt_gatew.Service.Worker.Reported.{
  change_store, store_value, store_live, store_daylight, store_failure, clear_node, record_states,
  publish_node_state, publish_states, has_live,
}
use sanlight_mesh_mqtt_gatew.Service.{Effect}
use sanlight_mesh_mqtt_gatew.Service.Logged.{Logged}
use sanlight_mesh_mqtt_gatew.Service.Logged.Keeps.{
  Keeps, After, After-bind, Keeps-bind, Keeps-seq, Keeps-try, return-Keeps, lift-Keeps,
  get_world-Keeps, set_store-Keeps, for_each-Keeps, read_clock-Keeps, save-After, save-Keeps,
  publish-Logged, After-step, Keeps-try_at,
}

module _ (env : Environment) {base : List Effect} where
  remember-After :
      (i : String) (r : Fields) (w : World)
      → Logged base w.log
      → After base (λ u v. In (remembered i r) v.log) (remember env i r w)
  unfolding remember
  remember-After i r w l =
      let Q : Unit {0} → World → Type 0 = λ u v. In (remembered i r) v.log in
      After-step Q _ (read_clock-Keeps env)
        (λ now. After-step Q _ get_world-Keeps (λ v. After-step Q _ (lift-Keeps _) (λ store.
          After-step Q _ (set_store-Keeps store)
            (λ u w k. save-After env (remembered i r) w k tt))))
        w l

  pub publish_and_remember-Keeps :
      (c : GatewayCommand) (r : Fields) → Keeps base (publish_and_remember env c r)
  unfolding publish_and_remember
  publish_and_remember-Keeps c r =
      After-bind (λ u v. In (remembered c.command_id r) v.log) _ _ (remember-After c.command_id r)
        (λ u w l i. Keeps-try_at _ _ w (publish-Logged env _ w l i) (λ e. return-Keeps tt))

  pub respond-Keeps :
      (c : GatewayCommand) (is_ok : Bool) (status message : String) (details : Fields)
      → Keeps base (respond env c is_ok status message details)
  unfolding respond
  respond-Keeps c is_ok status message details =
      Keeps-bind (read_clock-Keeps env) (λ now. publish_and_remember-Keeps c _)

  change_store-Keeps : (f : GatewayStore → GatewayStore) → Keeps base (change_store env f)
  change_store-Keeps f =
      Keeps-bind get_world-Keeps
        (λ w. Keeps-seq (set_store-Keeps (f w.store)) (save-Keeps env store_saved (λ v. tt)))

  store_value-Keeps : (p : String × ℕ) → Keeps base (store_value env p)
  unfolding store_value
  store_value-Keeps (address, value) = Keeps-bind (read_clock-Keeps env) (λ now.
      Keeps-bind get_world-Keeps (λ w.
        Keeps-bind (lift-Keeps _)
          (λ store. Keeps-seq (set_store-Keeps store) (save-Keeps env store_saved (λ v. tt)))))

  store_live-Keeps : (p : String × LiveStatus) → Keeps base (store_live env p)
  unfolding store_live
  store_live-Keeps (address, status) =
      Keeps-bind (read_clock-Keeps env) (λ now. change_store-Keeps _)

  store_daylight-Keeps :
      (now : ℕ) (p : String × DaylightStatus) → Keeps base (store_daylight env now p)
  unfolding store_daylight
  store_daylight-Keeps now (address, status) = change_store-Keeps _

  clear_node-Keeps : (address : String) → Keeps base (clear_node env address)
  unfolding clear_node
  clear_node-Keeps address = record {
    keeps = λ w l. elim (Bool-cases (has_live (node_record w.store address))) [
      | inl h ↦ rw h ((change_store-Keeps (λ store. clear_live store address)).keeps w l)
      | inr h ↦ rw h l
    ];
  }

  pub record_states-Keeps :
      (config : Config) (c : GatewayCommand) (execution : ExecutionResult)
      → Keeps base (record_states env config c execution)
  unfolding record_states store_failure
  record_states-Keeps config c execution = Keeps-seq (for_each-Keeps _ _ store_value-Keeps) (
      Keeps-seq (for_each-Keeps _ _ store_live-Keeps) (
        Keeps-bind (read_clock-Keeps env) (λ now.
          Keeps-seq (for_each-Keeps _ _ (store_daylight-Keeps now)) (
            Keeps-seq (for_each-Keeps _ _ (λ address. change_store-Keeps _))
              (Keeps-seq (for_each-Keeps _ _ clear_node-Keeps) (return-Keeps _))))))

  pub publish_states-Keeps : (addresses : List String) → Keeps base (publish_states env addresses)
  unfolding publish_states publish_node_state return
  publish_states-Keeps addresses = for_each-Keeps addresses _ (λ address.
      Keeps-try
        (record {
          keeps = λ w l.
              elim (Option-cases
                (get_node env.fromisoformat env.utf8 env.fromhex w.store address)) [
                  | inl h ↦ rw h l
                  | inr (s, h) ↦ rw h (publish-Logged env (node_published address s) w l tt)
                ];
        })
        (λ e. return-Keeps tt))
