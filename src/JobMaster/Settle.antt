-- ===== src/JobMaster/Settle.antt =====
-- What a node's result does to a JobMaster: the node is completed or failed afterwards, and no other
-- node is.
use flowgent.Prelude.{
  String, Bool, true, false, Option, none, some, List, [], ◌∷◌, ◌≡◌, refl, ◌∙◌, ◌==◌, ◌⊎◌, inl, inr,
  arith, eq_iff, eq_refl, Bool-cases,
}
use flowgent.Prelude.Dict.{get, put, get_or, flag-put}
use flowgent.Value.{Object, as_bool}
use flowgent.Dag.{TaskType}
use flowgent.JobMaster.Graph.{
  JobMaster, done, fail, set_condition_result, skip_child, skip_children, get_child_condition,
  children_of,
}
use flowgent.JobMaster.Execute.{
  Reply, schedule_error, result, keep_output, apply_condition, succeed, settle,
}
use flowgent.JobMaster.Grows.{
  has_run, has_plan, Grows, Grows-refl, Grows-trans, skip-Grows, fail-Grows, done-Grows,
}

-- Equal marks of having run.
pub record SameRuns (a b : JobMaster) : Type 0 where
  pub completed : b.completed ≡ a.completed
  pub failed : b.failed ≡ a.failed

SameRuns-skip_child :
    (o : Option Bool) (r : Bool) (c : String) (jm : JobMaster) → SameRuns jm (skip_child o r c jm)
unfolding skip_child
SameRuns-skip_child (some true) false c jm = record { completed = refl; failed = refl }
SameRuns-skip_child (some false) true c jm = record { completed = refl; failed = refl }
SameRuns-skip_child _ _ c jm = record { completed = refl; failed = refl }

skip_child-Grows :
    (o : Option Bool) (r : Bool) (c : String) (jm : JobMaster) → Grows jm (skip_child o r c jm)
unfolding skip_child
skip_child-Grows (some true) false c jm = skip-Grows jm c
skip_child-Grows (some false) true c jm = skip-Grows jm c
skip_child-Grows _ _ c jm = Grows-refl jm

SameRuns-skip_children :
    (n : String) (r : Bool) (cs : List String) (jm : JobMaster)
    → SameRuns jm (skip_children n r cs jm)
unfolding skip_children
SameRuns-skip_children n r [] jm = record { completed = refl; failed = refl }
SameRuns-skip_children n r (c ∷ cs) jm =
    let jm' = skip_child (get_child_condition jm n c) r c jm in
    let one = SameRuns-skip_child (get_child_condition jm n c) r c jm in
    let rest = SameRuns-skip_children n r cs jm' in
    record { completed = rest.completed ∙ one.completed; failed = rest.failed ∙ one.failed }

pub skip_children-Grows :
    (n : String) (r : Bool) (cs : List String) (jm : JobMaster) → Grows jm (skip_children n r cs jm)
unfolding skip_children
skip_children-Grows n r [] jm = Grows-refl jm
skip_children-Grows n r (c ∷ cs) jm =
    let o = get_child_condition jm n c in
    Grows-trans (skip_child-Grows o r c jm) (skip_children-Grows n r cs (skip_child o r c jm))

-- The effect of handing node `n` to the resource manager.
pub record Settles (n : String) (a b : JobMaster) : Type 0 where
  pub grows : Grows a b
  pub ran_self : has_run b n ≡ true
  pub ran_only : (m : String) → has_run b m ≡ true → (m ≡ n) ⊎ (has_run a m ≡ true)

done-Settles : (jm : JobMaster) (n : String) → Settles n jm (done jm n)
unfolding has_run done
done-Settles jm n = record {
  grows = done-Grows jm n;
  ran_self = ground (arith, flag-put jm.completed n true n, eq_refl n);
  ran_only = λ m h. ground (arith, flag-put jm.completed n true m, eq_iff n m);
}

fail-Settles : (jm : JobMaster) (n : String) → Settles n jm (fail jm n)
unfolding has_run fail
fail-Settles jm n = record {
  grows = fail-Grows jm n;
  ran_self = ground (arith, flag-put jm.failed n true n, eq_refl n);
  ran_only = λ m h. ground (arith, flag-put jm.failed n true m, eq_iff n m);
}

-- Steps before and after that leave the marks of having run.
Settles-then :
    {n : String} {a b c : JobMaster} → Settles n a b → Grows b c → SameRuns b c → Settles n a c
unfolding has_run
Settles-then {n} s g r = record {
  grows = Grows-trans s.grows g;
  ran_self = rw (r.completed, r.failed) s.ran_self;
  ran_only = λ m h. s.ran_only m (rw (← r.completed, ← r.failed) h);
}

pub Settles-after :
    {n : String} {a b c : JobMaster} → Grows a b → SameRuns a b → Settles n b c → Settles n a c
unfolding has_run
Settles-after {n} {a} {b} g r s = record {
  grows = Grows-trans g s.grows;
  ran_self = s.ran_self;
  ran_only = λ m h. ground (arith, s.ran_only m h, r.completed, r.failed);
}

keep_output-Grows :
    (n : String) (o : Option Object) (jm : JobMaster) → Grows jm (keep_output n o jm)
unfolding keep_output has_plan
keep_output-Grows n none jm = Grows-refl jm
keep_output-Grows n (some o) jm = record {
  nodes = refl;
  deps = refl;
  edge_conditions = refl;
  completed = λ m h. h;
  skipped = λ m h. h;
  failed = λ m h. h;
  plans = λ m h. h;
}

SameRuns-keep_output :
    (n : String) (o : Option Object) (jm : JobMaster) → SameRuns jm (keep_output n o jm)
unfolding keep_output
SameRuns-keep_output n none jm = record { completed = refl; failed = refl }
SameRuns-keep_output n (some o) jm = record { completed = refl; failed = refl }

error-Grows :
    (n e : String) (jm : JobMaster) → Grows jm (record jm { node_errors = put jm.node_errors n e })
unfolding has_plan
error-Grows n e jm = record {
  nodes = refl;
  deps = refl;
  edge_conditions = refl;
  completed = λ m h. h;
  skipped = λ m h. h;
  failed = λ m h. h;
  plans = λ m h. h;
}

fail_with-Settles :
    (n e : String) (jm : JobMaster)
    → Settles n jm (fail (record jm { node_errors = put jm.node_errors n e }) n)
fail_with-Settles n e jm =
    Settles-after (error-Grows n e jm) (record { completed = refl; failed = refl })
      (fail-Settles (record jm { node_errors = put jm.node_errors n e }) n)

done_with-Settles :
    (n : String) (o : Option Object) (jm : JobMaster) → Settles n jm (done (keep_output n o jm) n)
done_with-Settles n o jm =
    Settles-after (keep_output-Grows n o jm) (SameRuns-keep_output n o jm)
      (done-Settles (keep_output n o jm) n)

condition-Grows : (n : String) (r : Bool) (jm : JobMaster) → Grows jm (set_condition_result jm n r)
unfolding set_condition_result has_plan
condition-Grows n r jm = record {
  nodes = refl;
  deps = refl;
  edge_conditions = refl;
  completed = λ m h. h;
  skipped = λ m h. h;
  failed = λ m h. h;
  plans = λ m h. h;
}

apply_condition-Settles :
    (o : Option Bool) (n : String) (a jm : JobMaster)
    → Settles n a jm
    → Settles n a (apply_condition o n jm)
unfolding apply_condition set_condition_result
apply_condition-Settles none n a jm s = s
apply_condition-Settles (some r) n a jm s =
    let jm' = set_condition_result jm n r in
    let cs = children_of jm n in
    let runs = SameRuns-skip_children n r cs jm' in
    Settles-then s (Grows-trans (condition-Grows n r jm) (skip_children-Grows n r cs jm'))
      (record { completed = runs.completed; failed = runs.failed })

succeed-Settles :
    (n : String) (t : TaskType) (o : Option Object) (jm : JobMaster)
    → Settles n jm (succeed n t o jm)
unfolding succeed
succeed-Settles n TaskType.condition o jm =
    apply_condition-Settles (as_bool (get (get_or [] o) "result")) n jm
      (done (keep_output n o jm) n) (done_with-Settles n o jm)
succeed-Settles n _ o jm = done_with-Settles n o jm

pub settle-Settles :
    (n : String) (t : TaskType) (r : Reply) (jm : JobMaster) → Settles n jm (settle n t r jm)
unfolding settle
settle-Settles n t (schedule_error e) jm = fail_with-Settles n e jm
settle-Settles n t (result r) jm = elim (Bool-cases (r.error == "")) [
  | inl e ↦ rw e (succeed-Settles n t r.output jm)
  | inr e ↦ rw e (fail_with-Settles n r.error jm)
]
