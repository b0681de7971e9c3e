-- ===== src/Condition/Node.antt =====
-- A condition node, from the executor of condition.go to the job master.
use mathlib.Core.List.Memᴰ
use flowgent.Template.{Scope, Format}
use flowgent.Template.Lookup.{is_plain, reference}
use flowgent.Condition.Reference.{
  IsTight, reference-nonempty, eval_condition-reference, eval_condition-default,
}
use flowgent.Prelude.{
  is_some, Option-cases, Bool, true, false, not, Option, none, ◌↔◌, ◌⊎◌, inl, inr, ◌∙◌, ap, ◌==◌,
  Memᴰ, eq_iff, eq_refl, Bool-cases, true-false, none-some, some_inj, arith, ℕ, ◌<◌, String, some,
  List, [], ◌∷◌, ◌≡◌, refl, sym, subst, lt→ltb,
}
use flowgent.Prelude.Dict.{get, get_or, put, flag, flag-put, get-put}
use flowgent.Value.{Value, bool, Object, as_object}
use flowgent.Dag.{ExecutionPlan, TaskType}
use flowgent.JobMaster.Graph.{
  JobMaster, done, skip, skip_child, skip_children, children_of, get_child_condition,
  set_condition_result, edge_key,
}
use flowgent.JobMaster.Execute.{settle, succeed, apply_condition, keep_output}
use flowgent.TaskManager.{Executor, Task, key_of, route, execute_plan}
use flowgent.TaskManager.Standalone.{schedule, reply_of}
use flowgent.Condition.{Texts, run_condition, eval_condition, merge_input, expression_of}

routes :
    {S : Type 0} (fmt : Format) (texts : Texts) (executors : List (String × Executor S))
    (plan : ExecutionPlan) (s : S)
    → plan.task_type ≡ TaskType.condition
    → get executors "condition" ≡ some (run_condition fmt texts)
    → route executors plan s ≡ run_condition fmt texts plan s
unfolding route
routes fmt texts executors plan s is_condition registered =
    let at_key =
      subst (λ z. get executors (key_of z) ≡ some (run_condition fmt texts)) (sym is_condition)
        registered in
    rw (route, at_key) refl

-- What the job master makes of it, by the value of the expression.
condition-settles :
    {S : Type 0} (fmt : Format) (texts : Texts) (executors : List (String × Executor S))
    (save : Task → S → S) (now : S → ℕ) (full : ℕ → String) (pool_size in_use : ℕ)
    (plan : ExecutionPlan) (s : S) (n : String) (jm : JobMaster)
    → in_use < pool_size
    → plan.task_type ≡ TaskType.condition
    → get executors "condition" ≡ some (run_condition fmt texts)
    → let result =
        eval_condition fmt texts
          (merge_input fmt texts plan.input (("input", plan.input) ∷ []))
          (expression_of fmt texts plan) in
      settle n TaskType.condition
        (schedule (route executors) save now full pool_size in_use plan s).1
        jm
      ≡ apply_condition
          (some result)
          n
          (done (keep_output n (some (("result", bool result) ∷ [])) jm) n)
unfolding settle schedule reply_of execute_plan run_condition succeed get
condition-settles fmt texts executors save now full pool_size in_use plan s n jm free is_condition
      registered =
    let routed = routes fmt texts executors plan s is_condition registered in
    rw (lt→ltb in_use pool_size free) (rw (execute_plan, routed) refl)

-- The job master behind a condition node with a result: the node is complete, the result is kept, and
-- more is skipped, exactly the children whose edge wants the other result.
pub record Branches (n : String) (r : Bool) (jm jm' : JobMaster) : Type 0 where
  pub completed : flag jm'.completed n ≡ true
  pub kept : get jm'.conditions n ≡ some r
  pub skips :
      (child : String)
      → (flag jm'.skipped child ≡ true) ↔ (
          (flag jm.skipped child ≡ true)
          ⊎ (Memᴰ child (children_of jm n) × (get_child_condition jm n child ≡ some (not r))))

-- What the loop over the children leaves as it was.
record Same (jm jm' : JobMaster) : Type 0 where
  completed : jm'.completed ≡ jm.completed
  conditions : jm'.conditions ≡ jm.conditions
  edges : jm'.edge_conditions ≡ jm.edge_conditions

skip_child-Same :
    (o : Option Bool) (r : Bool) (c : String) (jm : JobMaster) → Same jm (skip_child o r c jm)
unfolding skip_child skip
skip_child-Same none r c jm = record { completed = refl; conditions = refl; edges = refl }
skip_child-Same (some true) true c jm = record { completed = refl; conditions = refl; edges = refl }
skip_child-Same (some true) false c jm = record {
  completed = refl;
  conditions = refl;
  edges = refl;
}
skip_child-Same (some false) true c jm = record {
  completed = refl;
  conditions = refl;
  edges = refl;
}
skip_child-Same (some false) false c jm = record {
  completed = refl;
  conditions = refl;
  edges = refl;
}

-- A child that is skipped, for whatever reason.
marked :
    (c child : String) (jm : JobMaster) {o p : Option Bool}
    → o ≡ p
    → (flag (put jm.skipped c true) child ≡ true)
      ↔ ((flag jm.skipped child ≡ true) ⊎ ((c ≡ child) × (o ≡ p)))
marked c child jm q = elim (Bool-cases (c == child)) [
  | inl e ↦ (
    (λ h. inr ((eq_iff c child).0 e, q)),
    (λ h. ground (arith, flag-put jm.skipped c true child, e)),
  )
  | inr e ↦ (
    (λ h. inl (ground (arith, flag-put jm.skipped c true child, e, h))),
    (λ h. elim h [
      | inl k ↦ ground (arith, flag-put jm.skipped c true child, e, k)
      | inr (x, y) ↦ absurd (true-false (sym ((eq_iff c child).1 x) ∙ e))
    ]),
  )
]

skip_child-skipped :
    (o : Option Bool) (r : Bool) (c child : String) (jm : JobMaster)
    → (flag (skip_child o r c jm).skipped child ≡ true)
      ↔ ((flag jm.skipped child ≡ true) ⊎ ((c ≡ child) × (o ≡ some (not r))))
unfolding skip_child skip
skip_child-skipped none r c child jm =
    ((λ h. inl h), (λ h. elim h [ inl k ↦ k | inr (q, e) ↦ absurd (none-some e) ]))
skip_child-skipped (some true) true c child jm =
    ((λ h. inl h), (λ h. elim h [ inl k ↦ k | inr (q, e) ↦ absurd (true-false (some_inj e)) ]))
skip_child-skipped (some false) false c child jm = (
  (λ h. inl h),
  (λ h. elim h [ inl k ↦ k | inr (q, e) ↦ absurd (true-false (sym (some_inj e))) ]),
)
skip_child-skipped (some true) false c child jm = marked c child jm refl
skip_child-skipped (some false) true c child jm = marked c child jm refl

skip_children-Same :
    (n : String) (r : Bool) (cs : List String) (jm : JobMaster) → Same jm (skip_children n r cs jm)
unfolding skip_children
skip_children-Same n r [] jm = record { completed = refl; conditions = refl; edges = refl }
skip_children-Same n r (c ∷ cs) jm =
    let o = get_child_condition jm n c in
    let here = skip_child-Same o r c jm in
    let rest = skip_children-Same n r cs (skip_child o r c jm) in
    record {
      completed = rest.completed ∙ here.completed;
      conditions = rest.conditions ∙ here.conditions;
      edges = rest.edges ∙ here.edges;
    }

skip_children-skipped :
    (n : String) (r : Bool) (cs : List String) (jm : JobMaster) (child : String)
    → (flag (skip_children n r cs jm).skipped child ≡ true) ↔ (
        (flag jm.skipped child ≡ true)
        ⊎ (Memᴰ child cs × (get_child_condition jm n child ≡ some (not r))))
unfolding skip_children get_child_condition
skip_children-skipped n r [] jm child =
    ((λ h. inl h), (λ h. elim h [ inl k ↦ k | inr (m, e) ↦ absurd (Memᴰ.not-nil m) ]))
skip_children-skipped n r (c ∷ cs) jm child =
    let o = get_child_condition jm n c in
    let jm' = skip_child o r c jm in
    let (to, from) = skip_child-skipped o r c child jm in
    let (there, back) = skip_children-skipped n r cs jm' child in
    let same : get_child_condition jm' n child ≡ get_child_condition jm n child =
      ap (λ d. get_or none (get d (edge_key n child))) (skip_child-Same o r c jm).edges in
    (
      (λ h. elim (there h) [
        | inl k ↦ elim (to k) [
          | inl x ↦ inl x
          | inr (q, e) ↦
              inr (Memᴰ.head (sym q), subst (λ z. get_child_condition jm n z ≡ some (not r)) q e)
        ]
        | inr (m, e) ↦ inr (Memᴰ.tail m, sym same ∙ e)
      ]),
      (λ h. elim h [
        | inl x ↦ back (inl (from (inl x)))
        | inr (m, e) ↦ elim (Memᴰ.cases_cons m) [
          | inl q ↦
              back (
                inl
                  (from (inr (sym q, subst (λ z. get_child_condition jm n z ≡ some (not r)) q e))))
          | inr k ↦ back (inr (k, same ∙ e))
        ]
      ]),
    )

apply_condition-Branches :
    (n : String) (r : Bool) (o : Object) (jm : JobMaster)
    → Branches n r jm (apply_condition (some r) n (done (keep_output n (some o) jm) n))
unfolding apply_condition set_condition_result keep_output done children_of get_child_condition
apply_condition-Branches n r o jm =
    let jm1 = set_condition_result (done (keep_output n (some o) jm) n) n r in
    let same = skip_children-Same n r (children_of jm n) jm1 in
    record {
      completed =
          ap (λ d. flag d n) same.completed ∙ flag-put jm.completed n true n ∙ rw (eq_refl n) refl;
      kept = ap (λ d. get d n) same.conditions ∙ get-put jm.conditions n r n ∙ rw (eq_refl n) refl;
      skips = λ child. skip_children-skipped n r (children_of jm n) jm1 child;
    }

-- The entry "input" is that of the plan, whatever the input holds.
merge_input-input :
    (fmt : Format) (texts : Texts) (input : Object) (merged : Scope) (node : Object)
    → get merged "input" ≡ some node
    → get (merge_input fmt texts input merged) "input" ≡ some node
unfolding merge_input
merge_input-input fmt texts [] merged node h = h
merge_input-input fmt texts ((k, v) ∷ input) merged node h =
    elim (Bool-cases (is_some (get merged k))) [
      | inl e ↦ rw (merge_input, e) (merge_input-input fmt texts input merged node h)
      | inr e ↦ elim (Option-cases (as_object (some v))) [
        | inl q ↦ rw (merge_input, e, q) (merge_input-input fmt texts input merged node h)
        | inr (o, q) ↦
            rw (merge_input, e, q)
              (merge_input-input fmt texts input (put merged k o) node
                (ground (arith, get-put merged k o "input", eq_iff k "input", h, e)))
      ]
    ]

-- A condition node whose expression is a reference to a field of its input, with no dot, brace or
-- space in the field's name, or that has no expression and a result in its input, is scheduled by
-- the standalone resource manager on a free slot, with its executor registered: the job master
-- completes it, keeps as its result whether the text of that field is true, and skips of its
-- children exactly those whose edge wants the other result, beside what was skipped before. It is
-- assumed that no printable character of ASCII but the space is one of unicode.IsSpace.
pub condition-Branches :
    {S : Type 0} (fmt : Format) (texts : Texts) (executors : List (String × Executor S))
    (save : Task → S → S) (now : S → ℕ) (full : ℕ → String) (pool_size in_use : ℕ)
    (plan : ExecutionPlan) (s : S) (n : String) (jm : JobMaster) (f : String) (v : Value)
    → in_use < pool_size
    → plan.task_type ≡ TaskType.condition
    → get executors "condition" ≡ some (run_condition fmt texts)
    → IsTight texts.is_space
    → is_plain f ≡ true
    → (plan.node_spec.expression ≡ reference "input" f)
      ⊎ ((plan.node_spec.expression ≡ "") × (f ≡ "result"))
    → get plan.input f ≡ some v
    → Branches n (fmt.sprint v == "true") jm (
        settle n TaskType.condition
          (schedule (route executors) save now full pool_size in_use plan s).1
          jm)
unfolding expression_of get
condition-Branches fmt texts executors save now full pool_size in_use plan s n jm f v free
      is_condition registered tight plain refers at_field =
    let scope = merge_input fmt texts plan.input (("input", plan.input) ∷ []) in
    let at_input =
      merge_input-input fmt texts plan.input (("input", plan.input) ∷ []) plan.input refl in
    let value : eval_condition fmt texts scope (expression_of fmt texts plan)
        ≡ (fmt.sprint v == "true") =
      elim refers [
        | inl e ↦
            rw (e, expression_of, reference-nonempty "input" f)
              (eval_condition-reference fmt texts scope "i" "nput" f plan.input v tight refl plain
                at_input at_field)
        | inr (e, q) ↦
            rw (expression_of, e)
              (eval_condition-default fmt texts scope plan.input v tight at_input
                (subst (λ z. get plan.input z ≡ some v) q at_field))
      ] in
    subst (λ z. Branches n (fmt.sprint v == "true") jm z)
      (sym (
        condition-settles fmt texts executors save now full pool_size in_use plan s n jm free
          is_condition registered))
      (rw value (apply_condition-Branches n (fmt.sprint v == "true") _ jm))
