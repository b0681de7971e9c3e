-- ===== src/JobMaster/Ends.antt =====
-- What the last turn of the loop of `Execute` (jobmaster.go) is, and what a run leaves behind.
use mathlib.Core.Option.{none-ne-some}
use flowgent.Prelude.{
  suc, sym, ap, ◌∙◌, some_inj, String, true, false, none, some, List, [], ◌≡◌, refl, arith, length,
}
use flowgent.Dag.{Flow, FlowRun, RunStatus, run_running, run_completed, run_failed}
use flowgent.JobMaster.Graph.{JobMaster, has_failed, is_complete, ready, collect_first_error}
use flowgent.JobMaster.Execute.{
  Env, Outcome, cancelled, stalled, Action, cancel, report_failed, report_completed, stall,
  next_action, wave, report, run_wave, execute_loop, start,
}
use flowgent.JobMaster.Loop.{Finishes, loop_rule}
use flowgent.JobMaster.Start.{start-IsStart}

module _ (env : Env) where
  -- The loop rule for `execute`: the invariant holds of the state that the loop starts with.
  pub execute_rule {κ} :
      (P : JobMaster → env.S → Type κ)
      → ((jm : JobMaster) (s : env.S) (ns : List String)
          → P jm s
          → next_action env jm s ≡ wave ns
          → P (run_wave env ns (jm, s)).0 (run_wave env ns (jm, s)).1)
      → (run : FlowRun) (spec : Flow) (jm : JobMaster) (s : env.S)
      → ((s' : env.S) → P (start (env.now s) run spec jm) s')
      → let run' = record run { status = run_running; started_at = some (env.now s) } in
        Finishes env P
          (suc (length spec.nodes))
          spec
          run'
          (start (env.now s) run spec jm)
          (env.update_run run' s).0
  execute_rule P keep run spec jm s p =
      let run' = record run { status = run_running; started_at = some (env.now s) } in
      let b = start-IsStart (env.now s) run spec jm in
      loop_rule env P keep (suc (length spec.nodes)) spec run' (start (env.now s) run spec jm)
        (env.update_run run' s).0 b.plans (omega (arith, b.unsettled_le))
        (p (env.update_run run' s).0)

  -- The outcome of a turn without a wave, by the test that decided it.
  pub data LastTurn (spec : Flow) (run : FlowRun) (jm : JobMaster) (s : env.S) (o : Outcome env)
      : Type 0 where
    on_cancel :
        (e : String)
        → env.ctx_err s ≡ some e
        → o ≡ record { end = cancelled e; jm = jm; run = run; env_state = s; posted = [] }
        → LastTurn spec run jm s o
    on_failed :
        env.ctx_err s ≡ none
        → has_failed jm ≡ true
        → o ≡ report env spec run_failed (collect_first_error jm) run jm s
        → LastTurn spec run jm s o
    on_complete :
        env.ctx_err s ≡ none
        → has_failed jm ≡ false
        → is_complete jm ≡ true
        → o ≡ report env spec run_completed run.error run jm s
        → LastTurn spec run jm s o
    on_stall :
        env.ctx_err s ≡ none
        → has_failed jm ≡ false
        → is_complete jm ≡ false
        → ready jm ≡ []
        → o ≡ record { end = stalled; jm = jm; run = run; env_state = s; posted = [] }
        → LastTurn spec run jm s o

  next_action-cancel :
      (jm : JobMaster) (s : env.S) {e : String}
      → next_action env jm s ≡ cancel e
      → env.ctx_err s ≡ some e
  unfolding next_action
  next_action-cancel jm s h = ground arith

  next_action-failed :
      (jm : JobMaster) (s : env.S)
      → next_action env jm s ≡ report_failed
      → (env.ctx_err s ≡ none) × (has_failed jm ≡ true)
  unfolding next_action
  next_action-failed jm s h = (ground arith, ground arith)

  next_action-completed :
      (jm : JobMaster) (s : env.S)
      → next_action env jm s ≡ report_completed
      → (env.ctx_err s ≡ none) × (has_failed jm ≡ false) × (is_complete jm ≡ true)
  unfolding next_action
  next_action-completed jm s h = (ground arith, ground arith, ground arith)

  next_action-stall :
      (jm : JobMaster) (s : env.S)
      → next_action env jm s ≡ stall
      → (env.ctx_err s ≡ none)
        × (has_failed jm ≡ false)
        × (is_complete jm ≡ false)
        × (ready jm ≡ [])
  unfolding next_action
  next_action-stall jm s h = (ground arith, ground arith, ground arith, ground arith)

  last_action :
      (spec : Flow) (run : FlowRun) (jm : JobMaster) (s : env.S) {o : Outcome env} (a : Action)
      → next_action env jm s ≡ a
      → execute_loop env 1 spec run jm s ≡ some o
      → LastTurn spec run jm s o
  unfolding execute_loop
  last_action spec run jm s (cancel x) e h =
      on_cancel x (next_action-cancel jm s e) (sym (some_inj (rw (e, execute_loop) at h)))
  last_action spec run jm s report_failed e h =
      let (c, f) = next_action-failed jm s e in
      on_failed c f (sym (some_inj (rw (e, execute_loop) at h)))
  last_action spec run jm s report_completed e h =
      let (c, f, d) = next_action-completed jm s e in
      on_complete c f d (sym (some_inj (rw (e, execute_loop) at h)))
  last_action spec run jm s stall e h =
      let (c, f, d, r) = next_action-stall jm s e in
      on_stall c f d r (sym (some_inj (rw (e, execute_loop) at h)))
  last_action spec run jm s (wave ns) e h = absurd (none-ne-some _ (rw (e, execute_loop) at h))

  pub last_turn :
      (spec : Flow) (run : FlowRun) (jm : JobMaster) (s : env.S) {o : Outcome env}
      → execute_loop env 1 spec run jm s ≡ some o
      → LastTurn spec run jm s o
  last_turn spec run jm s h = last_action spec run jm s (next_action env jm s) refl h

  jm-report :
      (spec : Flow) (st : RunStatus) (x : String) (run : FlowRun) (jm : JobMaster) (s : env.S)
      → (report env spec st x run jm s).jm ≡ jm
  unfolding report
  jm-report spec st x run jm s = ground arith

  jm-LastTurn :
      {spec : Flow} {run : FlowRun} {jm : JobMaster} {s : env.S} {o : Outcome env}
      → LastTurn spec run jm s o
      → o.jm ≡ jm
  jm-LastTurn (on_cancel e c q) = ap (λ (z : Outcome env). z.jm) q
  jm-LastTurn {spec} {run} {jm} {s} (on_failed c f q) =
      ap (λ (z : Outcome env). z.jm) q ∙ jm-report spec run_failed (collect_first_error jm) run jm s
  jm-LastTurn {spec} {run} {jm} {s} (on_complete c f d q) =
      ap (λ (z : Outcome env). z.jm) q ∙ jm-report spec run_completed run.error run jm s
  jm-LastTurn (on_stall c f d r q) = ap (λ (z : Outcome env). z.jm) q

  pub jm-last_turn :
      (spec : Flow) (run : FlowRun) (jm : JobMaster) (s : env.S) {o : Outcome env}
      → execute_loop env 1 spec run jm s ≡ some o
      → o.jm ≡ jm
  jm-last_turn spec run jm s h = jm-LastTurn (last_turn spec run jm s h)

  pub report_facts :
      (spec : Flow) (st : RunStatus) (x : String) (run : FlowRun) (jm : JobMaster) (s : env.S)
      → let o = report env spec st x run jm s in
        (o.jm ≡ jm)
        × (o.run.status ≡ st)
        × (o.end ≡ stalled → ⊥)
        × ((e : String) → o.end ≡ cancelled e → ⊥)
  unfolding report
  report_facts spec st x run jm s =
      (ground arith, ground arith, λ h. ground arith, λ e h. ground arith)
