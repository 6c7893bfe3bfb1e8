-- ===== src/Stateful.antt =====
-- Code that changes a state of type `S`, raises exceptions of type `E` and returns values: the code of
-- sanlight_mesh/gateway_executor.py and mesh_watchdog.py. What was changed before an
-- exception stays changed. Its child Rules has the rules for pre- and postconditions.
pub mod Rules
use sanlight_mesh_mqtt_gatew.Base.{Bool, List, [], ◌∷◌, if◌then◌else◌, Result, ok, err}

abbrev pub Run : Type 0 → Type 0 → Type 0 → Type 0
Run S E A = S → S × Result E A

abbrev pub continue : {S E A B : Type 0} → (A → Run S E B) → S × Result E A → S × Result E B
continue f (s, ok a) = f a s
continue f (s, err e) = (s, err e)

infixl 5 ◌>>=◌ ◌>>◌
unfoldable pub ◌>>=◌ : {S E A B : Type 0} → Run S E A → (A → Run S E B) → Run S E B
m >>= f = λ s. continue f (m s)

abbrev pub ◌>>◌ : {S E B : Type 0} → Run S E (Unit {0}) → Run S E B → Run S E B
m >> k = m >>= λ _. k

unfoldable pub return : {S E A : Type 0} → A → Run S E A
return a = λ s. (s, ok a)

unfoldable pub raise : {S E A : Type 0} → E → Run S E A
raise e = λ s. (s, err e)

unfoldable pub lift : {S E A : Type 0} → Result E A → Run S E A
lift r = λ s. (s, r)

abbrev pub cleaned : {S E A : Type 0} → Result E A → S × Result E (Unit {0}) → S × Result E A
cleaned r (s, ok u) = (s, r)
cleaned r (s, err e) = (s, err e)

-- `try: m; finally: f`; what `f` raises replaces what `m` returned or raised.
unfoldable pub finally : {S E A : Type 0} → Run S E A → Run S E (Unit {0}) → Run S E A
finally m f = λ s. cleaned (m s).1 (f (m s).0)
