-- ===== src/Service/Run.antt =====
-- Methods that change the state of sanlight_mesh/gateway_service.py and may raise, and the calls of the
-- outside that they make.
use sanlight_mesh_mqtt_gatew.Base.{ℕ, List, [], ◌∷◌, if◌then◌else◌, Result, ok, err}
use sanlight_mesh_mqtt_gatew.GatewayStore.{GatewayStore}
use sanlight_mesh_mqtt_gatew.Service.{
  Effect, clock_read, monotonic_read, save_failed, publish_failed, Fault, save_error, publish_error,
  World, Environment,
}

-- The state after a method, with what it returns or raises.
abbrev pub Run : Type 0 → Type 0
Run A = World → World × Result Fault A

abbrev pub then_run : {A B : Type 0} → (A → Run B) → World × Result Fault A → World × Result Fault B
then_run f (w, ok a) = f a w
then_run f (w, err e) = (w, err e)

infixl 5 ◌>>=◌ ◌>>◌
unfoldable pub ◌>>=◌ : {A B : Type 0} → Run A → (A → Run B) → Run B
m >>= f = λ w. then_run f (m w)

abbrev pub ◌>>◌ : {B : Type 0} → Run (Unit {0}) → Run B → Run B
m >> k = m >>= λ _. k

unfoldable pub return : {A : Type 0} → A → Run A
return a = λ w. (w, ok a)

unfoldable pub raise : {A : Type 0} → Fault → Run A
raise e = λ w. (w, err e)

unfoldable pub lift : {A : Type 0} → Result Fault A → Run A
lift r = λ w. (w, r)

abbrev pub handled :
    (Fault → Run (Unit {0})) → World × Result Fault (Unit {0}) → World × Result Fault (Unit {0})
handled f (w, ok u) = (w, ok u)
handled f (w, err e) = f e w

-- `try: m; except: f`
unfoldable pub try : Run (Unit {0}) → (Fault → Run (Unit {0})) → Run (Unit {0})
try m f = λ w. handled f (m w)

unfoldable pub get_world : Run World
get_world = λ w. (w, ok w)

unfoldable pub log_effect : Effect → Run (Unit {0})
log_effect e = λ w. (record w { log = e ∷ w.log }, ok tt)

unfoldable pub set_store : GatewayStore → Run (Unit {0})
set_store store = λ w. (record w { store = store }, ok tt)

-- `for x in xs: f(x)`
unfoldable pub for_each : {A : Type 0} → List A → (A → Run (Unit {0})) → Run (Unit {0})
for_each [] f = return tt
for_each (x ∷ xs) f = f x >> for_each xs f

module _ (env : Environment) where
  -- `utc_now()`
  unfoldable pub read_clock : Run ℕ
  read_clock = λ w. (record w { log = clock_read ∷ w.log }, ok (env.utc_now w.log))

  -- `time.monotonic()`
  unfoldable pub read_monotonic : Run ℕ
  read_monotonic = λ w. (record w { log = monotonic_read ∷ w.log }, ok (env.monotonic w.log))

  -- `store.save()`, for the given purpose.
  unfoldable pub save : Effect → Run (Unit {0})
  save purpose = λ w.
      if env.can_save w.log
      then (record w { log = purpose ∷ w.log }, ok tt)
      else (record w { log = save_failed ∷ w.log }, err save_error)

  -- `publish_json` of the transport.
  unfoldable pub publish : Effect → Run (Unit {0})
  publish publication = λ w.
      if env.can_publish w.log
      then (record w { log = publication ∷ w.log }, ok tt)
      else (record w { log = publish_failed ∷ w.log }, err publish_error)
