-- ===== src/JobMaster/Progress.antt =====
-- When a run of `Execute` (jobmaster.go) cannot stall.
use mathlib.Core.List.Memᴰ
use mathlib.Core.Bool.{true≢false}
use flowgent.Prelude.{
  is_empty, ℕ, zero, suc, ◌<◌, String, true, false, some, List, [], ◌∷◌, ◌≡◌, refl, sym, ap, subst,
  ◌∙◌, ◌⊎◌, inl, inr, Memᴰ, arith, Bool-cases,
}
use flowgent.Dag.{Flow, FlowRun, run_completed, run_failed}
use flowgent.JobMaster.Graph.{
  JobMaster, deps_of, is_settled, is_satisfied, has_failed, is_complete, ready, collect_first_error,
}
use flowgent.JobMaster.Build.{node_ids}
use flowgent.JobMaster.Execute.{Env, Outcome, cancelled, execute, start}
use flowgent.JobMaster.Grows.{Grows, Grows-refl, Grows-trans}
use flowgent.JobMaster.Waves.{run_wave-Grows}
use flowgent.JobMaster.Ready.{deps_done_iff, ready-mem, SomeSatisfied}
use flowgent.JobMaster.Start.{HasEdge, IsStart, start-IsStart}
use flowgent.JobMaster.Order.{deps_of-Grows}
use flowgent.JobMaster.Ends.{
  execute_rule, last_turn, report_facts, LastTurn, on_cancel, on_failed, on_complete, on_stall,
}
use flowgent.JobMaster.Nodes.{complete_of_nodes, unfailed-node, satisfied_of_settled}

-- Each edge joins nodes of the flow, and goes up in `rank`: the flow has no cycle.
pub record IsAcyclic (spec : Flow) (rank : String → ℕ) : Type 0 where
  pub closed : (d n : String) → HasEdge spec d n → Memᴰ d (node_ids spec)
  pub upward : (d n : String) → HasEdge spec d n → rank d < rank n

-- A list with all its elements satisfied has one, or is empty.
some_of_all :
    (jm : JobMaster) (ds : List String)
    → ((d : String) → Memᴰ d ds → is_satisfied jm d ≡ true)
    → (is_empty ds ≡ true) ⊎ SomeSatisfied jm ds
some_of_all jm [] h = inl refl
some_of_all jm (d ∷ ds) h = inr (d, Memᴰ.head refl, h d (Memᴰ.head refl))

module _ (spec : Flow) (rank : String → ℕ) (acyclic : IsAcyclic spec rank) (jm0 jm : JobMaster)
    (b : IsStart spec jm0) (g : Grows jm0 jm) (f : has_failed jm ≡ false) (r : ready jm ≡ []) where
  -- By induction on the rank: no node below `k` is left, since it would be ready.
  settled_below : (k : ℕ) (n : String) → Memᴰ n jm.nodes → rank n < k → is_settled jm n ≡ true
  settled_below zero n m lt = absurd (omega arith)
  settled_below (suc k) n m lt = elim (Bool-cases (is_settled jm n)) [
    | inl t ↦ t
    | inr u ↦
        let deps : (d : String) → Memᴰ d (deps_of jm n) → is_satisfied jm d ≡ true = λ d h.
          let edge = b.edge_of_dep d n (subst (λ l. Memᴰ d l) (deps_of-Grows g n) h) in
          let up = acyclic.upward d n edge in
          let m' = subst (λ l. Memᴰ d l) (sym (g.nodes ∙ b.nodes)) (acyclic.closed d n edge) in
          satisfied_of_settled jm d (unfailed-node jm f d m')
            (settled_below k d m' (omega arith)) in
        let done =
          (deps_done_iff jm n).1 ((λ d h. inl (deps d h)), some_of_all jm (deps_of jm n) deps) in
        absurd (Memᴰ.not-nil (subst (λ l. Memᴰ n l) r (ready-mem jm n m u done)))
  ]

  complete : is_complete jm ≡ true
  complete = complete_of_nodes jm (λ n m. settled_below (suc (rank n)) n m (omega arith))

module _ (env : Env) where
  -- How a run may end that does not stall.
  abbrev pub Concluded : Outcome env → Type 0
  Concluded o =
      ((e : String) × (o.end ≡ cancelled e))
      ⊎ ((o.run.status ≡ run_completed) ⊎ (o.run.status ≡ run_failed))

  LastTurn-Concluded :
      {spec : Flow} {run : FlowRun} {jm : JobMaster} {s : env.S} {o : Outcome env}
      → (has_failed jm ≡ false → ready jm ≡ [] → is_complete jm ≡ true)
      → LastTurn env spec run jm s o
      → Concluded o
  LastTurn-Concluded h (on_cancel e c q) = inl (e, ap (λ (z : Outcome env). z.end) q)
  LastTurn-Concluded {spec} {run} {jm} {s} h (on_failed c f q) = inr (
      inr (
        ap (λ (z : Outcome env). z.run.status) q
        ∙ (report_facts env spec run_failed (collect_first_error jm) run jm s).1))
  LastTurn-Concluded {spec} {run} {jm} {s} h (on_complete c f d q) = inr (
      inl (
        ap (λ (z : Outcome env). z.run.status) q
        ∙ (report_facts env spec run_completed run.error run jm s).1))
  LastTurn-Concluded h (on_stall c f d r q) = absurd (true≢false (sym (h f r) ∙ d))

  -- If each edge of a flow joins nodes of the flow and the edges make no cycle, `Execute` does not
  -- stall: it returns, with the context cancelled, or with the run COMPLETED or FAILED.
  pub execute-Concluded :
      (spec : Flow) (rank : String → ℕ)
      → IsAcyclic spec rank
      → (run : FlowRun) (jm : JobMaster) (s : env.S)
      → (o : Outcome env) × (execute env run spec jm s ≡ some o) × Concluded o
  unfolding execute
  execute-Concluded spec rank acyclic run jm s =
      let b = start-IsStart (env.now s) run spec jm in
      let jm0 = start (env.now s) run spec jm in
      let (o, jm', s', all, last, g) =
        execute_rule env (λ a t. Grows jm0 a)
          (λ a t ns p h. Grows-trans p (run_wave-Grows env ns a t)) run spec jm s
          (λ t. Grows-refl jm0) in
      (
        o,
        all,
        LastTurn-Concluded (complete spec rank acyclic jm0 jm' b g)
            (last_turn env spec _ jm' s' last),
      )
