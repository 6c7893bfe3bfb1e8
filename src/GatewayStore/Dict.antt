-- ===== src/GatewayStore/Dict.antt =====
-- Python's `dict` of JSON values: a new key goes to the end, a known one keeps its place.
use sanlight_mesh_mqtt_gatew.Base.{
  ◌≡◌, refl, true, false, String, some, if◌then◌else◌, str_eq, eq_iff, Bool-cases, inl, inr, subst,
  sym,
}
use sanlight_mesh_mqtt_gatew.Value.{Value, Fields, end, field, get}

-- `document[key] = value`
unfoldable pub put : Fields → String → Value → Fields
put end k v = field k v end
put (field j w fs) k v =
    let rest = put fs k v in if str_eq j k then field j v fs else field j w rest

-- `document.pop(key, None)`
unfoldable pub pop : Fields → String → Fields
pop end k = end
pop (field j w fs) k = let rest = pop fs k in if str_eq j k then fs else field j w rest

pub get-put_same : (fs : Fields) (k : String) (v : Value) → get (put fs k v) k ≡ some v
unfolding put
get-put_same end k v = let e : str_eq k k ≡ true = (eq_iff k k).1 refl in rw e
get-put_same (field j w fs) k v = elim (Bool-cases (str_eq j k)) [
  | inl e ↦ rw (e, e)
  | inr e ↦ rw (e, e) (get-put_same fs k v)
]

pub get-put_other :
    (fs : Fields) (k j : String) (v : Value) → str_eq k j ≡ false → get (put fs k v) j ≡ get fs j
unfolding put
get-put_other end k j v d = rw d
get-put_other (field i w fs) k j v d = elim (Bool-cases (str_eq i k)) [
  | inl e ↦
      let t : str_eq i j ≡ false = subst (λ x. str_eq x j ≡ false) (sym ((eq_iff i k).0 e)) d in
      rw (e, t)
  | inr e ↦
      rw e
        (elim (Bool-cases (str_eq i j)) [ inl t ↦ rw t | inr t ↦ rw t (get-put_other fs k j v d) ])
]

pub get-pop_other : (fs : Fields) (k j : String) → str_eq k j ≡ false → get (pop fs k) j ≡ get fs j
unfolding pop
get-pop_other end k j d = refl
get-pop_other (field i w fs) k j d = elim (Bool-cases (str_eq i k)) [
  | inl e ↦
      let t : str_eq i j ≡ false = subst (λ x. str_eq x j ≡ false) (sym ((eq_iff i k).0 e)) d in
      rw (e, t)
  | inr e ↦
      rw e (elim (Bool-cases (str_eq i j)) [ inl t ↦ rw t | inr t ↦ rw t (get-pop_other fs k j d) ])
]
