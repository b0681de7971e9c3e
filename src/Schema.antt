-- ===== src/Schema.antt =====
-- `ValidateJSONSchema` of common/pkg/utils/schema.go. A violation is its path and what is wrong there.
-- Go visits the properties in an unspecified order, so which violation is reported is unspecified;
-- here it is the first in the order of the schema's entries.
pub mod Required
pub mod Conforms
pub mod Loops
pub mod Node
pub mod Sound
use Prim.Native.String.{◌++◌ as str_append}
use flowgent.Prelude.{
  ℕ, suc, String, Bool, true, false, not, Option, none, some, List, [], ◌∷◌, ◌==◌, ◌&&◌, is_some,
  if◌then◌else◌,
}
use flowgent.Prelude.Dict.{get}
use flowgent.Value.{
  Value, null, bool, number, str, obj, arr, Number, int, float64, Fields, end, field, Items, Object,
  of_fields, of_items, as_string, as_object, as_list,
}
use flowgent.Schema.Required.{
  Violation, Problem, expected, no_object, missing, first, check_required, required_of,
}

-- v is nil
abbrev pub is_null : Value → Bool
is_null null = true
is_null _ = false

-- The schema's type is the text `t`.
unfoldable pub has_type : Fields → String → Bool
has_type schema t = elim (as_string (get (of_fields schema) "type")) [
  | none ↦ false
  | some s ↦ s == t
]

-- `show` is fmt.Sprintf's %d. `is_whole` tells of a float64, by its bits, whether it is its own
-- conversion to int64 and back.
module _ (show : ℕ → String) (is_whole : ℕ → Bool) where
  -- The switch of checkType.
  unfoldable pub fits : String → Value → Bool
  fits t v =
      if t == "object"
      then (elim v [ obj fs ↦ true | _ ↦ false ])
      else if t == "array"
      then (elim v [ arr vs ↦ true | _ ↦ false ])
      else if t == "string"
      then (elim v [ str s ↦ true | _ ↦ false ])
      else if t == "number"
      then (elim v [ number n ↦ true | _ ↦ false ])
      else if t == "boolean"
      then (elim v [ bool b ↦ true | _ ↦ false ])
      else if t == "integer"
      then (elim v [
        | number n ↦ elim n [ int neg size ↦ true | float64 b ↦ is_whole b ]
        | _ ↦ false
      ])
      else true

  -- checkType
  unfoldable pub check_type : String → Value → String → Option Violation
  unfolding fits
  check_type t v path =
      let wrong : Option Violation = some (path, expected t) in
      if is_null v && not (t == "null") then wrong else if fits t v then none else wrong

  -- The check of a schema's type, where it is a text.
  unfoldable pub check_typed : Fields → Value → String → Option Violation
  unfolding check_type
  check_typed schema v path = elim (as_string (get (of_fields schema) "type")) [
    | none ↦ none
    | some t ↦ check_type t v path
  ]

  -- The loop of validateArray; `check` validates an item.
  unfoldable pub each_item :
      (Value → String → Option Violation) → String → ℕ → List Value → Option Violation
  each_item check path i [] = none
  each_item check path i (v ∷ vs) =
      first (check v (str_append path (str_append "[" (str_append (show i) "]"))))
        (each_item check path (suc i) vs)

  -- validateNode with validateObject and validateArray; `props` and `its` are their loops over the
  -- entries of the schema's properties and over the value's items.
  unfoldable pub node :
      (Object → String → Option Violation)
      → (List Value → String → Option Violation)
      → Fields
      → Value
      → String
      → Option Violation
  unfolding check_typed
  node props its schema v path = first (check_typed schema v path) (
      if has_type schema "object"
      then (elim (as_object (some v)) [
        | none ↦ some (path, expected "object")
        | some m ↦ first (props m path) (check_required (required_of schema) m path)
      ])
      else if has_type schema "array"
      then (elim (as_list (some v)) [
        | none ↦ some (path, expected "array")
        | some vs ↦ its vs path
      ])
      else (elim (required_of schema) [
        | none ↦ none
        | some keys ↦ elim (as_object (some v)) [
          | none ↦ some (path, no_object)
          | some m ↦ check_required (some keys) m path
        ]
      ]))

  -- The loops, which find the schema's entry of that name: `properties` and `items`.
  unfoldable mutual
    unfolding each_item node

    pub properties : Fields → Object → String → Option Violation
    properties end m path = none
    properties (field k x rest) m path =
        let later = properties rest m path in
        if k == "properties" then properties_of x m path else later

    pub properties_of : Value → Object → String → Option Violation
    properties_of (obj ps) m path = each_property ps m path
    properties_of null m path = none
    properties_of (bool b) m path = none
    properties_of (number n) m path = none
    properties_of (str s) m path = none
    properties_of (arr vs) m path = none

    pub each_property : Fields → Object → String → Option Violation
    each_property end m path = none
    each_property (field key raw rest) m path =
        first (property raw (get m key) (str_append path (str_append "." key)))
          (each_property rest m path)

    pub property : Value → Option Value → String → Option Violation
    property (obj sub) child path = elim child [
      | none ↦ none
      | some v ↦ node (properties sub) (items sub) sub v path
    ]
    property null child path = none
    property (bool b) child path = none
    property (number n) child path = none
    property (str s) child path = none
    property (arr vs) child path = none

    pub items : Fields → List Value → String → Option Violation
    items end vs path = none
    items (field k x rest) vs path =
        let later = items rest vs path in if k == "items" then items_of x vs path else later

    pub items_of : Value → List Value → String → Option Violation
    items_of (obj sub) vs path = each_item (node (properties sub) (items sub) sub) path 0 vs
    items_of null vs path = none
    items_of (bool b) vs path = none
    items_of (number n) vs path = none
    items_of (str s) vs path = none
    items_of (arr xs) vs path = none

  -- validateNode
  unfoldable pub validate_node : Fields → Value → String → Option Violation
  validate_node schema = node (properties schema) (items schema) schema

  -- ValidateJSONSchema; a nil schema accepts everything.
  unfoldable pub validate : Option Fields → Value → Option Violation
  unfolding validate_node
  validate none v = none
  validate (some schema) v = validate_node schema v "$"
