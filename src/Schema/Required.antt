-- ===== src/Schema/Required.antt =====
-- Violations of a schema, and the check of `required` that validateNode and validateObject of
-- common/pkg/utils/schema.go share.
use Prim.Native.String.{◌++◌ as str_append}
use flowgent.Prelude.{String, Option, none, some, List, [], ◌∷◌}
use flowgent.Prelude.Dict.{get}
use flowgent.Value.{Value, null, bool, number, str, obj, arr, Fields, Object, of_fields, as_list}

pub data Problem : Type 0 where
  expected : String → Problem
  no_object missing : Problem

abbrev pub Violation : Type 0
Violation = String × Problem

-- if err := a; err != nil { return err }, then b
abbrev pub first : Option Violation → Option Violation → Option Violation
first none b = b
first (some e) b = some e

-- schema["required"].([]any)
abbrev pub required_of : Fields → Option (List Value)
required_of schema = as_list (get (of_fields schema) "required")

-- The loop over the required keys; an entry that is no text is skipped.
unfoldable pub each_required : List Value → Object → String → Option Violation
each_required [] m path = none
each_required (str key ∷ rest) m path = elim (get m key) [
  | none ↦ some (str_append path (str_append "." key), missing)
  | some v ↦ each_required rest m path
]
each_required (null ∷ rest) m path = each_required rest m path
each_required (bool b ∷ rest) m path = each_required rest m path
each_required (number n ∷ rest) m path = each_required rest m path
each_required (obj fs ∷ rest) m path = each_required rest m path
each_required (arr vs ∷ rest) m path = each_required rest m path

unfoldable pub check_required : Option (List Value) → Object → String → Option Violation
unfolding each_required
check_required none m path = none
check_required (some keys) m path = each_required keys m path
