-- ===== src/JobMaster/Input.antt =====
-- `resolveInput` of jobmaster.go, and the merge of a node's arguments into its input that `Execute`
-- makes before it.
use flowgent.Prelude.{String, none, some, List, [], ◌∷◌}
use flowgent.Prelude.Dict.{Dict, get, put, get_or}
use flowgent.Value.{Object, to_fields, of_fields, obj}
use flowgent.Dag.{NodeSpec, ExecutionPlan}
use flowgent.Template.{Format, Scope, resolve_fields, collect_refs}
use flowgent.JobMaster.Graph.{JobMaster}

-- Each argument goes in, unless the input has its key.
unfoldable pub merge_args : Object → Object → Object
merge_args [] raw = raw
merge_args ((k, v) ∷ args) raw =
    merge_args args (elim (get raw k) [ none ↦ put raw k v | some w ↦ raw ])

unfoldable pub merge_spec : NodeSpec → NodeSpec
unfolding merge_args
merge_spec spec = elim spec.args [
  | none ↦ spec
  | some args ↦ record spec { raw_input = some (merge_args args (get_or [] spec.raw_input)) }
]

-- The outputs replace a node called `vars`, as the assignments in the loop do.
unfoldable pub output_scope : Dict Object → Scope → Scope
output_scope [] scope = scope
output_scope ((n, o) ∷ outputs) scope = output_scope outputs (put scope n o)

unfoldable pub inject_refs : Dict Object → List String → Object → Object
inject_refs outputs [] input = input
inject_refs outputs (r ∷ rs) input =
    inject_refs outputs rs
      (elim (get outputs r) [ none ↦ input | some o ↦ put input r (obj (to_fields o)) ])

-- resolveInput
unfoldable pub resolve_input : Format → JobMaster → Object → Object
unfolding output_scope inject_refs
resolve_input fmt jm yaml_input =
    let scope = output_scope jm.node_outputs (("vars", jm.resolved_vars) ∷ []) in
    let resolved = of_fields (resolve_fields fmt scope (to_fields yaml_input)) in
    inject_refs jm.node_outputs (collect_refs yaml_input) resolved

-- The plan as `Execute` hands it to the resource manager.
unfoldable pub prepare_plan : Format → JobMaster → ExecutionPlan → ExecutionPlan
unfolding merge_spec resolve_input
prepare_plan fmt jm plan =
    let spec = merge_spec plan.node_spec in
    record plan { node_spec = spec; input = resolve_input fmt jm (get_or [] spec.raw_input) }
