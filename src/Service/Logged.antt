-- ===== src/Service/Logged.antt =====
-- What the log of the worker of sanlight_mesh/gateway_service.py tells: a command is executed only after
-- it was stored as in flight, and a result is published only after it was stored.
pub mod Keeps
pub mod Steps
pub mod Worked
use sanlight_mesh_mqtt_gatew.Base.{List, [], ◌∷◌, In, ok, err, Result}
use sanlight_mesh_mqtt_gatew.Service.{
  Effect, clock_read, monotonic_read, waited, marked, executed, remembered, store_saved,
  save_failed, publish_failed, sequence_read, result_published, node_published, info_published,
  Fault, World,
}

-- What must have been done before an effect.
abbrev pub Justified : Effect → List Effect → Type 0
Justified (executed c) l = In (marked c) l
Justified (result_published i r) l = In (remembered i r) l
Justified clock_read l = Unit
Justified monotonic_read l = Unit
Justified (waited n) l = Unit
Justified (marked c) l = Unit
Justified (remembered i r) l = Unit
Justified store_saved l = Unit
Justified save_failed l = Unit
Justified publish_failed l = Unit
Justified sequence_read l = Unit
Justified (node_published a s) l = Unit
Justified (info_published h s) l = Unit

-- A log that grew from `base` by effects that were justified one after the other.
pub data Logged (base : List Effect) : List Effect → Type 0 where
  begun : Logged base base
  logged : {e : Effect} {l : List Effect} → Justified e l → Logged base l → Logged base (e ∷ l)
