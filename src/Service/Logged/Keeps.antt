-- ===== src/Service/Logged/Keeps.antt =====
-- Rules for the methods of sanlight_mesh/gateway_service.py that keep the log justified.
use sanlight_mesh_mqtt_gatew.Base.{
  Bool, true, false, Bool-cases, List, [], ◌∷◌, In, inl, inr, refl, Result, ok, err, if◌then◌else◌,
}
use sanlight_mesh_mqtt_gatew.GatewayStore.{GatewayStore}
use sanlight_mesh_mqtt_gatew.Service.{Effect, Fault, World, Environment}
use sanlight_mesh_mqtt_gatew.Service.Run.{
  Run, then_run, ◌>>=◌, ◌>>◌, return, raise, lift, handled, try, get_world, set_store, for_each,
  read_clock, read_monotonic, save, publish,
}
use sanlight_mesh_mqtt_gatew.Service.Logged.{Justified, Logged, logged}

pub record Keeps (base : List Effect) {A : Type 0} (m : Run A) : Type 0 where
  pub keeps : (w : World) → Logged base w.log → Logged base (m w).0.log

-- What holds after a method, if it returns; the log is justified in any case.
abbrev pub After :
    List Effect → {A : Type 0} → (A → World → Type 0) → World × Result Fault A → Type 0
After base P (w, ok a) = Logged base w.log × P a w
After base P (w, err e) = Logged base w.log

module _ {base : List Effect} where
  After-then :
      {A B : Type 0} (P : A → World → Type 0) (p : World × Result Fault A) (f : A → Run B)
      → After base P p
      → ((a : A) (w : World) → Logged base w.log → P a w → Logged base (f a w).0.log)
      → Logged base (then_run f p).0.log
  After-then P (w, ok a) f (l, q) k = k a w l q
  After-then P (w, err e) f l k = l

  pub After-bind :
      {A B : Type 0} (P : A → World → Type 0) (m : Run A) (f : A → Run B)
      → ((w : World) → Logged base w.log → After base P (m w))
      → ((a : A) (w : World) → Logged base w.log → P a w → Logged base (f a w).0.log)
      → Keeps base (m >>= f)
  unfolding ◌>>=◌
  After-bind P m f h k = record { keeps = λ w l. After-then P (m w) f (h w l) k }

  After-pair :
      {A B : Type 0} (Q : B → World → Type 0) (p : World × Result Fault A) (f : A → Run B)
      → Logged base p.0.log
      → ((a : A) (w : World) → Logged base w.log → After base Q (f a w))
      → After base Q (then_run f p)
  After-pair Q (w, ok a) f l k = k a w l
  After-pair Q (w, err e) f l k = l

  -- The same for a method whose first part keeps the log justified.
  pub After-step :
      {A B : Type 0} (Q : B → World → Type 0) {m : Run A} (f : A → Run B)
      → Keeps base m
      → ((a : A) (w : World) → Logged base w.log → After base Q (f a w))
      → (w : World) → Logged base w.log
      → After base Q ((m >>= f) w)
  unfolding ◌>>=◌
  After-step Q {m} f h k w l = After-pair Q (m w) f (h.keeps w l) k

  pub Keeps-then :
      {A B : Type 0} (p : World × Result Fault A) (f : A → Run B)
      → Logged base p.0.log
      → ((a : A) → Keeps base (f a))
      → Logged base (then_run f p).0.log
  Keeps-then (w, ok a) f l k = (k a).keeps w l
  Keeps-then (w, err e) f l k = l

  pub Keeps-bind_at :
      {A B : Type 0} (m : Run A) (f : A → Run B) (w : World)
      → Logged base (m w).0.log
      → ((a : A) → Keeps base (f a))
      → Logged base ((m >>= f) w).0.log
  unfolding ◌>>=◌
  Keeps-bind_at m f w l k = Keeps-then (m w) f l k

  pub Keeps-bind :
      {A B : Type 0} {m : Run A} {f : A → Run B}
      → Keeps base m
      → ((a : A) → Keeps base (f a))
      → Keeps base (m >>= f)
  unfolding ◌>>=◌
  Keeps-bind {m = m} {f = f} h k = record { keeps = λ w l. Keeps-then (m w) f (h.keeps w l) k }

  pub Keeps-seq :
      {B : Type 0} {m : Run (Unit {0})} {k : Run B}
      → Keeps base m
      → Keeps base k
      → Keeps base (m >> k)
  Keeps-seq h k = Keeps-bind h (λ u. k)

  handled-Keeps :
      (p : World × Result Fault (Unit {0})) (f : Fault → Run (Unit {0}))
      → Logged base p.0.log
      → ((e : Fault) → Keeps base (f e))
      → Logged base (handled f p).0.log
  handled-Keeps (w, ok u) f l k = l
  handled-Keeps (w, err e) f l k = (k e).keeps w l

  pub Keeps-try_at :
      (m : Run (Unit {0})) (f : Fault → Run (Unit {0})) (w : World)
      → Logged base (m w).0.log
      → ((e : Fault) → Keeps base (f e))
      → Logged base (try m f w).0.log
  unfolding try
  Keeps-try_at m f w l k = handled-Keeps (m w) f l k

  pub Keeps-try :
      {m : Run (Unit {0})} {f : Fault → Run (Unit {0})}
      → Keeps base m
      → ((e : Fault) → Keeps base (f e))
      → Keeps base (try m f)
  unfolding try
  Keeps-try {m = m} {f = f} h k = record { keeps = λ w l. handled-Keeps (m w) f (h.keeps w l) k }

  pub return-Keeps : {A : Type 0} (a : A) → Keeps base (return a)
  unfolding return
  return-Keeps a = record { keeps = λ w l. l }

  pub raise-Keeps : (A : Type 0) (e : Fault) → Keeps base (raise {A = A} e)
  unfolding raise
  raise-Keeps A e = record { keeps = λ w l. l }

  pub lift-Keeps : {A : Type 0} (r : Result Fault A) → Keeps base (lift r)
  unfolding lift
  lift-Keeps r = record { keeps = λ w l. l }

  pub get_world-Keeps : Keeps base get_world
  unfolding get_world
  get_world-Keeps = record { keeps = λ w l. l }

  pub set_store-Keeps : (store : GatewayStore) → Keeps base (set_store store)
  unfolding set_store
  set_store-Keeps store = record { keeps = λ w l. l }

  pub for_each-Keeps :
      {A : Type 0} (xs : List A) (f : A → Run (Unit {0}))
      → ((x : A) → Keeps base (f x))
      → Keeps base (for_each xs f)
  unfolding for_each
  for_each-Keeps [] f h = return-Keeps tt
  for_each-Keeps (x ∷ xs) f h = Keeps-seq (h x) (for_each-Keeps xs f h)

  pub Keeps-if :
      {A : Type 0} (b : Bool) {m n : Run A}
      → Keeps base m
      → Keeps base n
      → Keeps base (if b then m else n)
  Keeps-if true h k = h
  Keeps-if false h k = k

module _ (env : Environment) {base : List Effect} where
  pub read_clock-Keeps : Keeps base (read_clock env)
  unfolding read_clock
  read_clock-Keeps = record { keeps = λ w l. logged tt l }

  pub read_monotonic-Keeps : Keeps base (read_monotonic env)
  unfolding read_monotonic
  read_monotonic-Keeps = record { keeps = λ w l. logged tt l }

  -- After a save, its purpose is in the log.
  pub save-After :
      (e : Effect) (w : World)
      → Logged base w.log
      → Justified e w.log
      → After base (λ u v. In e v.log) (save env e w)
  unfolding save
  save-After e w l j = elim (Bool-cases (env.can_save w.log)) [
    | inl h ↦ rw h (logged j l, inl refl)
    | inr h ↦ rw h (logged tt l)
  ]

  pub save-Keeps : (e : Effect) → ((w : World) → Justified e w.log) → Keeps base (save env e)
  unfolding save
  save-Keeps e j = record {
    keeps = λ w l. elim (Bool-cases (env.can_save w.log)) [
      | inl h ↦ rw h (logged (j w) l)
      | inr h ↦ rw h (logged tt l)
    ];
  }

  pub publish-Logged :
      (e : Effect) (w : World)
      → Logged base w.log
      → Justified e w.log
      → Logged base (publish env e w).0.log
  unfolding publish
  publish-Logged e w l j = elim (Bool-cases (env.can_publish w.log)) [
    | inl h ↦ rw h (logged j l)
    | inr h ↦ rw h (logged tt l)
  ]
