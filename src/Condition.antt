-- ===== src/Condition.antt =====
-- `EvalCondition` of common/pkg/utils/eval.go and the executor of condition nodes,
-- core/pkg/engine/executor/condition.go. unicode.IsSpace, strings.EqualFold and strconv.ParseFloat with
-- Go's comparisons of float64 are the record `Texts`.
pub mod Node
pub mod Reference
use Prim.Native.Char.{Char, code}
use Prim.Native.String.{[], ◌∷◌, ◌++◌}
use mathlib.Core.List as L
use flowgent.Prelude.{
  String, Bool, true, false, not, Option, none, some, List, ◌==◌, ◌&&◌, is_some, if◌then◌else◌,
}
use flowgent.Prelude.Dict.{get, put}
use flowgent.Prelude.Text.{cut_prefix}
use flowgent.Value.{Value, bool, Object, as_object}
use flowgent.Template.{Scope, Format, resolve, contains_space, whole_ref}
use flowgent.Agent.Extract.{trim_left, trim_right}
use flowgent.Dag.{ExecutionPlan}
use flowgent.TaskManager.{Executor, output}

pub record Texts : Type 1 where
  pub is_space : Char → Bool
  pub equal_fold : String → String → Bool
  pub F : Type 0
  pub parse_float : String → Option F
  pub lt : F → F → Bool
  pub le : F → F → Bool
  pub eq : F → F → Bool

-- strings.Index: the text before the first occurrence, and the text behind it.
unfoldable pub find : String → String → Option (String × String)
find sep [] = none
find sep (c ∷ s) = elim (cut_prefix (c ∷ s) sep) [
  | some after ↦ some ("", after)
  | none ↦ elim (find sep s) [ none ↦ none | some (before, after) ↦ some (c ∷ before, after) ]
]

-- The loop over the operators: the first that the text begins with, and the text behind it and a space.
unfoldable pub first_op : List String → String → Option (String × String)
first_op L.[] rest = none
first_op (L.◌∷◌ o ops) rest = elim (cut_prefix rest (o ++ " ")) [
  | some after ↦ some (o, after)
  | none ↦ elim (cut_prefix rest o) [ some after ↦ some (o, after) | none ↦ first_op ops rest ]
]

abbrev pub operators : List String
operators = L.◌∷◌ ">=" (L.◌∷◌ "<=" (L.◌∷◌ "!=" (L.◌∷◌ "==" (L.◌∷◌ ">" (L.◌∷◌ "<" L.[])))))

module _ (fmt : Format) (texts : Texts) where
  open texts use {is_space, equal_fold, F, parse_float, lt, le, eq}

  abbrev pub trim : String → String
  trim s = trim_right is_space (trim_left is_space s)

  -- The switch on an operator between two floats; none behind the switch.
  unfoldable pub compare_floats : String → F → F → Option Bool
  compare_floats op a b =
      if op == ">"
      then some (lt b a)
      else if op == "<"
      then some (lt a b)
      else if op == ">="
      then some (le b a)
      else if op == "<="
      then some (le a b)
      else if op == "=="
      then some (eq a b)
      else if op == "!="
      then some (not (eq a b))
      else none

  -- The switch on an operator between two texts.
  unfoldable pub compare_texts : String → String → String → Bool
  compare_texts op lhs rhs =
      if op == "==" then lhs == rhs else if op == "!=" then not (lhs == rhs) else false

  -- Both sides as floats, if they parse, and else as texts.
  unfoldable pub compare : String → String → String → Bool
  compare op lhs rhs = elim (parse_float lhs) [
    | none ↦ compare_texts op lhs rhs
    | some a ↦ elim (parse_float rhs) [
      | none ↦ compare_texts op lhs rhs
      | some b ↦ elim (compare_floats op a b) [ none ↦ compare_texts op lhs rhs | some r ↦ r ]
    ]
  ]

  -- The left side of a comparison inside the braces, where the operator is not at the start.
  unfoldable pub inner_split : String → String → Option (String × String)
  inner_split op inner = elim (find op inner) [
    | none ↦ none
    | some (before, after) ↦ if before == "" then none else some (trim before, trim after)
  ]

  -- `${path == value}`
  unfoldable pub eval_inner : Scope → String → Bool
  eval_inner scope inner = elim (inner_split " == " inner) [
    | some (path, rhs) ↦ resolve fmt scope ("${" ++ (path ++ "}")) == rhs
    | none ↦ elim (inner_split " != " inner) [
      | some (path, rhs) ↦ not (resolve fmt scope ("${" ++ (path ++ "}")) == rhs)
      | none ↦ false
    ]
  ]

  -- `${path} op value`, from the texts before and behind the first closing brace.
  unfoldable pub eval_outer : Scope → String → String → Bool
  eval_outer scope before after = elim (first_op operators (trim after)) [
    | none ↦ false
    | some (op, rhs) ↦ compare op (resolve fmt scope (before ++ "}")) rhs
  ]

  -- The forms of an expression that is trimmed and no literal. `Resolve` returns a text for a text, so
  -- the test for a Boolean behind it never passes.
  unfoldable pub eval_forms : Scope → String → Bool
  eval_forms scope expr = elim (cut_prefix expr "${") [
    | none ↦ equal_fold expr "true"
    | some behind ↦ elim (contains_space expr) [
      | true ↦ elim (whole_ref expr) [
        | some inner ↦ eval_inner scope inner
        | none ↦ elim (find "}" expr) [
          | some (before, after) ↦ eval_outer scope before after
          | none ↦ equal_fold expr "true"
        ]
      ]
      | false ↦ elim (whole_ref expr) [
        | some inner ↦ resolve fmt scope expr == "true"
        | none ↦ equal_fold expr "true"
      ]
    ]
  ]

  -- EvalCondition
  unfoldable pub eval_condition : Scope → String → Bool
  eval_condition scope text =
      let expr = trim text in
      if expr == ""
      then false
      else if expr == "true"
      then true
      else if expr == "false"
      then false
      else eval_forms scope expr

  -- The loop over the input: its maps become nodes of the scope, unless there is one of that name.
  unfoldable pub merge_input : Object → Scope → Scope
  merge_input L.[] merged = merged
  merge_input (L.◌∷◌ (k, v) input) merged = merge_input input (
      if is_some (get merged k)
      then merged
      else (elim (as_object (some v)) [ none ↦ merged | some mv ↦ put merged k mv ]))

  unfoldable pub expression_of : ExecutionPlan → String
  expression_of plan =
      if plan.node_spec.expression == ""
      then "${input.result == true}"
      else plan.node_spec.expression

  -- ConditionExecutor.Execute, on the scope that the task manager gives: the plan's input.
  unfoldable pub run_condition : {S : Type 0} → Executor S
  run_condition plan s =
      let merged = merge_input plan.input (L.◌∷◌ ("input", plan.input) L.[]) in
      (s, output (L.◌∷◌ ("result", bool (eval_condition merged (expression_of plan))) L.[]))
