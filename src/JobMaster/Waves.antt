-- ===== src/JobMaster/Waves.antt =====
-- What one node and one wave of nodes do to a JobMaster: a node with a plan is completed or failed
-- afterwards, and no other node is.
use flowgent.Prelude.{
  String, true, false, some, List, [], ◌∷◌, ◌≡◌, refl, subst, ◌⊎◌, inl, inr, arith,
  value_of_is_some, Bool-cases,
}
use flowgent.Prelude.Dict.{get, put, get-put}
use flowgent.Dag.{ExecutionPlan}
use flowgent.JobMaster.Graph.{JobMaster}
use flowgent.JobMaster.Execute.{Env, run_plan, run_node, run_wave}
use flowgent.JobMaster.Execute.{task_run_from_plan}
use flowgent.JobMaster.Input.{prepare_plan}
use flowgent.JobMaster.Grows.{has_run, has_plan, Grows, Grows-refl, Grows-trans}
use flowgent.JobMaster.Settle.{Settles, Settles-after, settle-Settles}

plan-Grows :
    (n : String) (p : ExecutionPlan) (jm : JobMaster)
    → Grows jm (record jm { plan_map = put jm.plan_map n p })
unfolding has_plan
plan-Grows n p jm = record {
  nodes = refl;
  deps = refl;
  edge_conditions = refl;
  completed = λ m h. h;
  skipped = λ m h. h;
  failed = λ m h. h;
  plans = λ m h. ground (arith, get-put jm.plan_map n p m);
}

plan_of :
    (jm : JobMaster) (n : String)
    → has_plan jm n ≡ true
    → (p : ExecutionPlan) × (get jm.plan_map n ≡ some p)
unfolding has_plan
plan_of jm n h = value_of_is_some (get jm.plan_map n) h

module _ (env : Env) where
  pub run_plan-Settles :
      (n : String) (p : ExecutionPlan) (jm : JobMaster) (s : env.S)
      → Settles n jm (run_plan env n p (jm, s)).0
  unfolding run_plan
  run_plan-Settles n p jm s =
      let p' = prepare_plan env.fmt jm p in
      let jm' = record jm { plan_map = put jm.plan_map n p' } in
      Settles-after (plan-Grows n p' jm) (record { completed = refl; failed = refl })
        (settle-Settles n p'.task_type
          (env.schedule p' (env.save_task (task_run_from_plan p') s).0).1 jm')

  -- A node with a plan is settled by running it.
  pub run_node-Settles :
      (n : String) (jm : JobMaster) (s : env.S)
      → has_plan jm n ≡ true
      → Settles n jm (run_node env n (jm, s)).0
  unfolding run_node
  run_node-Settles n jm s h =
      let (p, e) = plan_of jm n h in let run = run_plan-Settles n p jm s in rw (e, run_node) run

  no_plan :
      (jm : JobMaster) (s : env.S) (n : String)
      → has_plan jm n ≡ false
      → run_node env n (jm, s) ≡ (jm, s)
  unfolding run_node has_plan
  no_plan jm s n h = ground arith

  pub run_node-Grows :
      (n : String) (jm : JobMaster) (s : env.S) → Grows jm (run_node env n (jm, s)).0
  run_node-Grows n jm s = elim (Bool-cases (has_plan jm n)) [
    | inl h ↦ (run_node-Settles n jm s h).grows
    | inr h ↦ rw (no_plan jm s n h) (Grows-refl jm)
  ]

  -- Running `n` makes no other node run.
  pub run_node_only :
      (n : String) (jm : JobMaster) (s : env.S) (m : String)
      → has_run (run_node env n (jm, s)).0 m ≡ true
      → (m ≡ n) ⊎ (has_run jm m ≡ true)
  run_node_only n jm s m h = elim (Bool-cases (has_plan jm n)) [
    | inl p ↦ (run_node-Settles n jm s p).ran_only m h
    | inr p ↦ inr (subst (λ (z : JobMaster × env.S). has_run z.0 m ≡ true) (no_plan jm s n p) h)
  ]

  pub run_wave-Grows :
      (ns : List String) (jm : JobMaster) (s : env.S) → Grows jm (run_wave env ns (jm, s)).0
  unfolding run_wave
  run_wave-Grows [] jm s = Grows-refl jm
  run_wave-Grows (n ∷ ns) jm s =
      let (jm', s') = run_node env n (jm, s) in
      Grows-trans (run_node-Grows n jm s) (run_wave-Grows ns jm' s')
