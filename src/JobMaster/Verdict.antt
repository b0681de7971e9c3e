-- ===== src/JobMaster/Verdict.antt =====
-- What the status of a run says of its nodes when `Execute` of jobmaster.go returns.
use flowgent.Prelude.{String, true, false, some, List, [], ◌≡◌, refl, sym, subst, ◌∙◌, Memᴰ}
use flowgent.Prelude.Dict.{flag}
use flowgent.Dag.{Flow, FlowRun, run_running, run_completed, run_failed}
use flowgent.JobMaster.Graph.{JobMaster, is_satisfied, is_settled, ready, collect_first_error}
use flowgent.JobMaster.Build.{node_ids}
use flowgent.JobMaster.Execute.{Env, Outcome, End, execute, start}
use flowgent.JobMaster.Grows.{Grows, Grows-refl, Grows-trans}
use flowgent.JobMaster.Waves.{run_wave-Grows}
use flowgent.JobMaster.Start.{start-IsStart}
use flowgent.JobMaster.Ends.{
  execute_rule, last_turn, report_facts, LastTurn, on_cancel, on_failed, on_complete, on_stall,
}
use flowgent.JobMaster.Nodes.{incomplete-node, failed-node, complete-node}

module _ (env : Env) where
  -- The status of a run and the state of the nodes `ns` of its flow.
  pub record Verdict (ns : List String) (o : Outcome env) : Type 0 where
    pub completed :
        o.run.status ≡ run_completed → (n : String) → Memᴰ n ns → is_satisfied o.jm n ≡ true
    pub failed : o.run.status ≡ run_failed → (n : String) × Memᴰ n ns × (flag o.jm.failed n ≡ true)
    pub stalled :
        o.end ≡ End.stalled
        → (o.run.status ≡ run_running)
          × (ready o.jm ≡ [])
          × ((n : String) × Memᴰ n ns × (is_settled o.jm n ≡ false))
    pub cancelled : (e : String) → o.end ≡ End.cancelled e → o.run.status ≡ run_running

  LastTurn-Verdict :
      {spec : Flow} {run : FlowRun} {jm : JobMaster} {s : env.S} {o : Outcome env}
      → run.status ≡ run_running
      → LastTurn env spec run jm s o
      → Verdict jm.nodes o
  LastTurn-Verdict {jm = jm} r (on_cancel e c q) =
      subst (λ z. Verdict jm.nodes z) (sym q)
        (record {
          completed = λ h. cc;
          failed = λ h. absurd (cc);
          stalled = λ h. absurd (cc);
          cancelled = λ x h. r;
        })
  LastTurn-Verdict {spec} {run} {jm} {s} r (on_failed c f q) =
      let (ej, es, el, ec) = report_facts env spec run_failed (collect_first_error jm) run jm s in
      subst (λ z. Verdict jm.nodes z) (sym q)
        (record {
          completed = λ h. cc;
          failed = λ h.
              subst (λ (z : JobMaster). (n : String) × Memᴰ n jm.nodes × (flag z.failed n ≡ true))
                (sym ej) (failed-node jm f);
          stalled = λ h. absurd (el h);
          cancelled = λ x h. absurd (ec x h);
        })
  LastTurn-Verdict {spec} {run} {jm} {s} r (on_complete c f d q) =
      let (ej, es, el, ec) = report_facts env spec run_completed run.error run jm s in
      subst (λ z. Verdict jm.nodes z) (sym q)
        (record {
          completed = λ h n m.
              subst (λ (z : JobMaster). is_satisfied z n ≡ true) (sym ej)
                (complete-node jm f d n m);
          failed = λ h. absurd (cc);
          stalled = λ h. absurd (el h);
          cancelled = λ x h. absurd (ec x h);
        })
  LastTurn-Verdict {jm = jm} r (on_stall c f d l q) =
      subst (λ z. Verdict jm.nodes z) (sym q)
        (record {
          completed = λ h. cc;
          failed = λ h. absurd (cc);
          stalled = λ h. (r, l, incomplete-node jm d);
          cancelled = λ x h. absurd (cc);
        })

  -- `Execute` returns, and then: a COMPLETED run has every node of the flow completed or skipped; a
  -- FAILED run has a failed node; a run that stalled keeps the status RUNNING, with a node that is not
  -- settled and none that is ready; and so does a cancelled run keep it.
  pub execute-Verdict :
      (run : FlowRun) (spec : Flow) (jm : JobMaster) (s : env.S)
      → (o : Outcome env) × (execute env run spec jm s ≡ some o) × Verdict (node_ids spec) o
  unfolding execute
  execute-Verdict run spec jm s =
      let b = start-IsStart (env.now s) run spec jm in
      let jm0 = start (env.now s) run spec jm in
      let (o, jm', s', all, last, g) =
        execute_rule env (λ a t. Grows jm0 a)
          (λ a t ns p h. Grows-trans p (run_wave-Grows env ns a t)) run spec jm s
          (λ t. Grows-refl jm0) in
      let v = LastTurn-Verdict refl (last_turn env spec _ jm' s' last) in
      (o, all, subst (λ ns. Verdict ns o) (g.nodes ∙ b.nodes) v)
