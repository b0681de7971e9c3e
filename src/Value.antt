-- ===== src/Value.antt =====
-- The values of type `any` that the engine moves between nodes: what encoding/json and yaml decode
-- into. A map keeps its entries as a list; no modelled code depends on their order.
use flowgent.Prelude.{ℕ, String, Bool, List, [], ◌∷◌, Option, none, some}
use flowgent.Prelude.Dict.{Dict}

-- An `int` by whether it is below zero and its size, a `float64` by its bit pattern: the engine hands
-- numbers on.
pub data Number : Type 0 where
  int : Bool → ℕ → Number
  float64 : ℕ → Number

mutual
  pub data Value : Type 0 where
    null : Value
    bool : Bool → Value
    number : Number → Value
    str : String → Value
    obj : Fields → Value
    arr : Items → Value

  pub data Fields : Type 0 where
    end : Fields
    field : String → Value → Fields → Fields

  pub data Items : Type 0 where
    nil : Items
    cons : Value → Items → Items

-- map[string]any
abbrev pub Object : Type 0
Object = Dict Value

abbrev pub to_fields : Object → Fields
to_fields [] = end
to_fields ((k, v) ∷ o) = field k v (to_fields o)

abbrev pub of_fields : Fields → Object
of_fields end = []
of_fields (field k v fs) = (k, v) ∷ of_fields fs

abbrev pub to_items : List Value → Items
to_items [] = nil
to_items (v ∷ vs) = cons v (to_items vs)

abbrev pub of_items : Items → List Value
of_items nil = []
of_items (cons v vs) = v ∷ of_items vs

-- v.(bool), v.(string), v.(map[string]any), v.([]any), each with its `ok`.
abbrev pub as_bool : Option Value → Option Bool
as_bool (some (bool b)) = some b
as_bool _ = none

abbrev pub as_string : Option Value → Option String
as_string (some (str s)) = some s
as_string _ = none

abbrev pub as_object : Option Value → Option Object
as_object (some (obj fs)) = some (of_fields fs)
as_object _ = none

abbrev pub as_list : Option Value → Option (List Value)
as_list (some (arr vs)) = some (of_items vs)
as_list _ = none
