-- ===== src/Committee.antt =====
-- `CommitteeExecutor.Execute` of core/pkg/engine/executor/committee.go: the votes of a committee node
-- and the strategies that decide on them.
pub mod Laws
use flowgent.Prelude.{
  ℕ, ◌+◌, ◌*◌, ◌/◌, String, Bool, true, false, Option, none, some, List, [], ◌∷◌, ◌==◌, eqb, ltb,
  leb, length, if◌then◌else◌,
}
use flowgent.Prelude.Dict.{get, get_or}
use flowgent.Value.{Value, Object, as_bool, as_string, as_object, as_list}
use flowgent.Dag.{ExecutionPlan}

-- The output of the node. The confidence is the quotient of the two numbers, and 0.0 if there is none.
pub record Decision : Type 0 where
  pub decision : Bool
  pub confidence : Option (ℕ × ℕ)
  pub approve : ℕ
  pub total : ℕ
  pub strategy : String

-- strategy["type"].(string), or "majority"
unfoldable pub decision_type : Option Object → String
decision_type none = "majority"
decision_type (some strategy) = get_or "majority" (as_string (get strategy "type"))

-- v.(map[string]any), and then m["decision"].(bool) that is true
unfoldable pub is_approval : Value → Bool
is_approval v = elim (as_object (some v)) [
  | none ↦ false
  | some m ↦ elim (as_bool (get m "decision")) [ none ↦ false | some dec ↦ dec ]
]

-- The loop over the votes.
unfoldable pub count_approvals : List Value → ℕ → ℕ
unfolding is_approval
count_approvals [] n = n
count_approvals (v ∷ votes) n = count_approvals votes (if is_approval v then n + 1 else n)

-- The switch on the strategy.
unfoldable pub is_approved : String → ℕ → ℕ → Bool
is_approved strategy approve total =
    if strategy == "majority"
    then ltb (total / 2) approve
    else if strategy == "unanimous"
    then eqb approve total
    else if strategy == "any"
    then leb 1 approve
    else if strategy == "majority_strict"
    then leb (total * 2 / 3) approve
    else ltb (total / 2) approve

-- Execute
unfoldable pub execute : ExecutionPlan → Decision
unfolding decision_type count_approvals is_approved
execute plan =
    let strategy = decision_type plan.node_spec.strategy in
    let votes = get_or [] (as_list (get plan.input "votes")) in
    let approve = count_approvals votes 0 in
    let total = length votes in
    record {
      decision = is_approved strategy approve total;
      confidence = if ltb 0 total then some (approve, total) else none;
      approve = approve;
      total = total;
      strategy = strategy;
    }
