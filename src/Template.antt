-- ===== src/Template.antt =====
-- Template references `${node}` and `${node.field}`: `Resolve` of common/pkg/utils/eval.go, and
-- `resolveDeep` and `collectRefs` of core/pkg/engine/jobmanager/jobmaster.go.
mod Scan
pub mod Lookup
unfoldable pub use Scan.{replace, contains_ref, contains_space, split_dot, whole_ref}
use flowgent.Prelude.{
  String, Bool, true, false, not, Option, none, some, List, [], ◌∷◌, ◌==◌, ◌&&◌, if◌then◌else◌,
}
use flowgent.Prelude.Dict.{Dict, get, put}
use flowgent.Value.{
  Value, null, bool, number, str, arr, obj, Items, nil, cons, Fields, end, field, Object, to_fields,
}
use Prim.Native.String.{◌++◌}

-- map[string]map[string]any
abbrev pub Scope : Type 0
Scope = Dict Object

-- fmt.Sprintf("%v", v) of a value and of a map.
pub record Format : Type 0 where
  pub sprint : Value → String
  pub sprint_map : Object → String

module _ (fmt : Format) where
  -- The text that stands for the path of one `${path}`: the path is cut at its first dot.
  unfoldable pub expand : Scope → String → String
  expand scope path =
      let keep = "${" ++ (path ++ "}") in
      let (head, rest) = split_dot path in
      elim (get scope head) [
        | none ↦ keep
        | some node ↦ elim rest [
          | none ↦ fmt.sprint_map node
          | some f ↦ elim (get node f) [ none ↦ keep | some v ↦ fmt.sprint v ]
        ]
      ]

  -- `Resolve` at a string; at any other value it returns the value.
  unfoldable pub resolve : Scope → String → String
  unfolding expand
  resolve scope s = if contains_ref s then replace (expand scope) s else s

  -- The raw value of a string that is one whole reference without a space.
  unfoldable pub raw_reference : Scope → String → Option Value
  raw_reference scope s = elim (whole_ref s) [
    | none ↦ none
    | some inner ↦
        if contains_space s
        then none
        else (let (head, rest) = split_dot inner in
            elim (get scope head) [
              | none ↦ none
              | some node ↦ elim rest [ none ↦ some (obj (to_fields node)) | some f ↦ get node f ]
            ])
  ]

unfoldable mutual
  pub resolve_deep : Format → Scope → Value → Value
  resolve_deep fmt scope null = null
  resolve_deep fmt scope (bool b) = bool b
  resolve_deep fmt scope (number n) = number n
  resolve_deep fmt scope (str s) = elim (raw_reference fmt scope s) [
    | none ↦ str (resolve fmt scope s)
    | some v ↦ v
  ]
  resolve_deep fmt scope (arr vs) = arr (resolve_items fmt scope vs)
  resolve_deep fmt scope (obj fs) = obj (resolve_fields fmt scope fs)

  pub resolve_items : Format → Scope → Items → Items
  resolve_items fmt scope nil = nil
  resolve_items fmt scope (cons v vs) = cons (resolve_deep fmt scope v) (resolve_items fmt scope vs)

  pub resolve_fields : Format → Scope → Fields → Fields
  resolve_fields fmt scope end = end
  resolve_fields fmt scope (field k v fs) =
      field k (resolve_deep fmt scope v) (resolve_fields fmt scope fs)

-- The node that a string refers to as a whole, unless that is `vars`.
unfoldable pub ref_of : String → List String
ref_of s = elim (whole_ref s) [
  | none ↦ []
  | some inner ↦ let (head, rest) = split_dot inner in if head == "vars" then [] else head ∷ []
]

-- `collectRefs` below one value: the references in the order of the walk. The source keeps a set.
unfoldable mutual
  pub refs : Value → List String → List String
  refs null acc = acc
  refs (bool b) acc = acc
  refs (number n) acc = acc
  refs (str s) acc = elim (ref_of s) [ [] ↦ acc | r ∷ rs ↦ r ∷ acc ]
  refs (arr vs) acc = refs_items vs acc
  refs (obj fs) acc = refs_fields fs acc

  pub refs_items : Items → List String → List String
  refs_items nil acc = acc
  refs_items (cons v vs) acc = refs v (refs_items vs acc)

  pub refs_fields : Fields → List String → List String
  refs_fields end acc = acc
  refs_fields (field k v fs) acc = refs v (refs_fields fs acc)

unfoldable pub collect_refs : Object → List String
unfolding refs
collect_refs o = refs_fields (to_fields o) []
