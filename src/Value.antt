-- ===== src/Value.antt =====
-- The values of a JSON document (and of the dynamic arguments that the program checks by
-- `isinstance`): what Python's `json.loads` returns. A float is kept as its text, since the program
-- never computes with one that it has read from a document.
use sanlight_mesh_mqtt_gatew.Base.{
  ℕ, ℤ, Bool, String, Option, none, some, between, pos_part, Result, ok, err, if◌then◌else◌, str_eq,
}

mutual
  pub data Value : Type 0 where
    null : Value
    boolean : Bool → Value
    integer : ℤ → Value
    float : String → Value
    text : String → Value
    array : Items → Value
    object : Fields → Value

  -- The fields of an object, each key once.
  pub data Fields : Type 0 where
    end : Fields
    field : String → Value → Fields → Fields

  -- The items of an array.
  pub data Items : Type 0 where
    nil : Items
    cons : Value → Items → Items

-- `not isinstance(v, bool) and isinstance(v, int)`, with the integer.
abbrev pub as_int : Value → Option ℤ
as_int (integer n) = some n
as_int null = none
as_int (boolean b) = none
as_int (float s) = none
as_int (text s) = none
as_int (array xs) = none
as_int (object fs) = none

-- `document.get(key)`, and `key in document` by its being there.
abbrev pub get : Fields → String → Option Value
get end k = none
get (field j v fs) k = if str_eq j k then some v else get fs k

-- `document.get(key)` with its default `None`, or another.
abbrev pub value_or : Option Value → Value → Value
value_or (some v) d = v
value_or none d = d

-- The check that the program writes out for each number: an integer, no Boolean, in a range.
unfoldable pub checked_int : {E : Type 0} → Value → ℕ → ℕ → E → E → Result E ℕ
checked_int v lo hi not_int out_of_range = elim (as_int v) [
  | none ↦ err not_int
  | some n ↦ if between lo hi n then ok (pos_part n) else err out_of_range
]
