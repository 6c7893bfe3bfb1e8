-- ===== src/Stateful/Rules.antt =====
-- Rules for code with a state: what holds before, after it returns, and after it raises.
use sanlight_mesh_mqtt_gatew.Base.{Bool, true, false, if◌then◌else◌, Result, ok, err}
use sanlight_mesh_mqtt_gatew.Stateful.{Run, continue, ◌>>=◌, return, raise, cleaned, finally}

abbrev pub After : {S E A : Type 0} → (A → S → Type 0) → (E → S → Type 0) → S × Result E A → Type 0
After Q R (s, ok a) = Q a s
After Q R (s, err e) = R e s

-- From a state with `P`, it returns with `Q` or raises with `R`.
pub record Triple {S E A : Type 0} (P : S → Type 0) (m : Run S E A) (Q : A → S → Type 0)
    (R : E → S → Type 0) : Type 0 where
  pub run : (s : S) → P s → After Q R (m s)

module _ {S E : Type 0} (R : E → S → Type 0) where
  continue-After :
      {A B : Type 0} (Q : A → S → Type 0) (T : B → S → Type 0) (p : S × Result E A)
      (f : A → Run S E B)
      → After Q R p
      → ((a : A) → Triple (Q a) (f a) T R)
      → After T R (continue f p)
  continue-After Q T (s, ok a) f h k = (k a).run s h
  continue-After Q T (s, err e) f h k = h

  pub Triple-bind :
      {A B : Type 0} {P : S → Type 0} {m : Run S E A} {f : A → Run S E B} {T : B → S → Type 0}
      (Q : A → S → Type 0)
      → Triple P m Q R
      → ((a : A) → Triple (Q a) (f a) T R)
      → Triple P (m >>= f) T R
  unfolding ◌>>=◌
  Triple-bind {m = m} {f = f} {T = T} Q h k = record {
    run = λ s p. continue-After Q T (m s) f (h.run s p) k;
  }

  pub Triple-return :
      {A : Type 0} {P : S → Type 0} {Q : A → S → Type 0} (a : A)
      → ((s : S) → P s → Q a s)
      → Triple P (return {S = S} {E = E} a) Q R
  unfolding return
  Triple-return a h = record { run = h }

  pub Triple-raise :
      {A : Type 0} {P : S → Type 0} {Q : A → S → Type 0} (e : E)
      → ((s : S) → P s → R e s)
      → Triple P (raise {S = S} {E = E} {A = A} e) Q R
  unfolding raise
  Triple-raise e h = record { run = h }

  pub Triple-if :
      {A : Type 0} {P : S → Type 0} {Q : A → S → Type 0} {m n : Run S E A} (b : Bool)
      → Triple P m Q R
      → Triple P n Q R
      → Triple P (if b then m else n) Q R
  Triple-if true h k = h
  Triple-if false h k = k

cleaned_ok :
    {S E A : Type 0} (Q : A → S → Type 0) (R : E → S → Type 0) (a : A) (p : S × Result E (Unit {0}))
    → After (λ u. Q a) R p
    → After Q R (cleaned (ok a) p)
cleaned_ok Q R a (s, ok u) h = h
cleaned_ok Q R a (s, err e) h = h

cleaned_err :
    {S E A : Type 0} (Q : A → S → Type 0) (R : E → S → Type 0) (x : E) (p : S × Result E (Unit {0}))
    → After (λ u. R x) R p
    → After Q R (cleaned (err x) p)
cleaned_err Q R x (s, ok u) h = h
cleaned_err Q R x (s, err e) h = h

finally-After :
    {S E A : Type 0} (Q₀ : A → S → Type 0) (R₀ : E → S → Type 0) (Q : A → S → Type 0)
    (R : E → S → Type 0) (p : S × Result E A) (f : Run S E (Unit {0}))
    → After Q₀ R₀ p
    → ((a : A) → Triple (Q₀ a) f (λ u. Q a) R)
    → ((e : E) → Triple (R₀ e) f (λ u. R e) R)
    → After Q R (cleaned p.1 (f p.0))
finally-After Q₀ R₀ Q R (s, ok a) f h q r = cleaned_ok Q R a (f s) ((q a).run s h)
finally-After Q₀ R₀ Q R (s, err e) f h q r = cleaned_err Q R e (f s) ((r e).run s h)

-- The cleanup keeps what the body returned or raised, or raises itself.
pub Triple-finally :
    {S E A : Type 0} {P : S → Type 0} {m : Run S E A} {f : Run S E (Unit {0})} {Q : A → S → Type 0}
    {R : E → S → Type 0} (Q₀ : A → S → Type 0) (R₀ : E → S → Type 0)
    → Triple P m Q₀ R₀
    → ((a : A) → Triple (Q₀ a) f (λ u. Q a) R)
    → ((e : E) → Triple (R₀ e) f (λ u. R e) R)
    → Triple P (finally m f) Q R
unfolding finally
Triple-finally {m = m} {f = f} {Q = Q} {R = R} Q₀ R₀ h q r = record {
  run = λ s p. finally-After Q₀ R₀ Q R (m s) f (h.run s p) q r;
}

After-any : {S E A : Type 0} (p : S × Result E A) → After (λ a s. Unit) (λ e s. Unit) p
After-any (s, ok a) = tt
After-any (s, err e) = tt

-- A property of what is returned, whatever the state was.
abbrev pub Returns : {S E A : Type 0} → Run S E A → (A → Type 0) → Type 0
Returns m Q = Triple (λ s. Unit) m (λ a s. Q a) (λ e s. Unit)

both_After :
    {S E A : Type 0} (Q T : A → Type 0) (p : S × Result E A)
    → After (λ a s. Q a) (λ e s. Unit) p
    → After (λ a s. T a) (λ e s. Unit) p
    → After (λ a s. Q a × T a) (λ e s. Unit) p
both_After Q T (s, ok a) h k = (h, k)
both_After Q T (s, err e) h k = tt

pub Returns-both :
    {S E A : Type 0} {m : Run S E A} (Q T : A → Type 0)
    → Returns m Q
    → Returns m T
    → Returns m (λ a. Q a × T a)
Returns-both {m = m} Q T h k = record { run = λ s u. both_After Q T (m s) (h.run s u) (k.run s u) }

pub Returns-then :
    {S E A B : Type 0} {m : Run S E A} {f : A → Run S E B} (P : A → Type 0) (Q : B → Type 0)
    → Returns m P
    → ((a : A) → P a → Returns (f a) Q)
    → Returns (m >>= f) Q
Returns-then P Q h k =
    Triple-bind (λ e s. Unit) (λ a s. P a) h (λ a. record { run = λ s p. (k a p).run s tt })

pub Returns-after :
    {S E A B : Type 0} (m : Run S E A) {f : A → Run S E B} (Q : B → Type 0)
    → ((a : A) → Returns (f a) Q)
    → Returns (m >>= f) Q
Returns-after m Q k =
    Triple-bind (λ e s. Unit) (λ a s. Unit) (record { run = λ s p. After-any (m s) }) k

pub Returns-value :
    {S E A : Type 0} (Q : A → Type 0) (a : A) → Q a → Returns (return {S = S} {E = E} a) Q
Returns-value Q a h = Triple-return (λ e s. Unit) a (λ s p. h)

pub Returns-raise :
    {S E A : Type 0} (Q : A → Type 0) (e : E) → Returns (raise {S = S} {E = E} {A = A} e) Q
Returns-raise Q e = Triple-raise (λ x s. Unit) e (λ s p. tt)
