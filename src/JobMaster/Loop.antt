-- ===== src/JobMaster/Loop.antt =====
-- The loop of `Execute` ends: each wave settles a node more, so the turns that `execute` allows are
-- enough. The rule at the end carries an invariant from the first turn to the last.
use flowgent.Prelude.{
  ℕ, zero, suc, ◌≤◌, ◌<◌, String, true, false, some, List, [], ◌∷◌, ◌≡◌, refl, sym, subst, Memᴰ,
  arith, misses, misses-lt, misses_mono,
}
use flowgent.Dag.{Flow, FlowRun, run_failed, run_completed}
use flowgent.JobMaster.Graph.{
  JobMaster, is_settled, has_failed, is_complete, ready, collect_first_error,
}
use flowgent.JobMaster.Execute.{
  Env, Action, cancel, report_failed, report_completed, stall, wave, next_action, run_node,
  run_wave, execute_loop, report, Outcome, cancelled, stalled,
}
use flowgent.JobMaster.Grows.{has_run, has_plan, Grows, is_settled_mono}
use flowgent.JobMaster.Waves.{run_node-Settles, run_wave-Grows}
use flowgent.JobMaster.Ready.{mem-ready}

-- How many nodes are neither completed nor skipped nor failed.
unfoldable pub unsettled : JobMaster → ℕ
unsettled jm = misses (is_settled jm) jm.nodes

abbrev pub HasPlans : JobMaster → Type 0
HasPlans jm = (n : String) → Memᴰ n jm.nodes → has_plan jm n ≡ true

pub HasPlans-Grows : {a b : JobMaster} → Grows a b → HasPlans a → HasPlans b
HasPlans-Grows g h n m = g.plans n (h n (subst (λ ns. Memᴰ n ns) g.nodes m))

is_settled_of_has_run : (jm : JobMaster) (n : String) → has_run jm n ≡ true → is_settled jm n ≡ true
unfolding is_settled has_run
is_settled_of_has_run jm n h = ground arith

unsettled-Grows : {a b : JobMaster} → Grows a b → unsettled b ≤ unsettled a
unfolding unsettled
unsettled-Grows {a} {b} g =
    simp g.nodes (misses_mono (is_settled a) (is_settled b) (is_settled_mono g) a.nodes)

unsettled-lt :
    {a b : JobMaster} {n : String}
    → Grows a b
    → Memᴰ n a.nodes
    → is_settled a n ≡ false
    → is_settled b n ≡ true
    → unsettled b < unsettled a
unfolding unsettled
unsettled-lt {a} {b} g m f t =
    simp g.nodes (misses-lt (is_settled a) (is_settled b) (is_settled_mono g) m f t)

module _ (env : Env) where
  pub next_action-wave :
      (jm : JobMaster) (s : env.S) (ns : List String)
      → next_action env jm s ≡ wave ns
      → (ready jm ≡ ns) × (has_failed jm ≡ false) × (is_complete jm ≡ false)
  unfolding next_action
  next_action-wave jm s ns h = (ground arith, ground arith, ground arith)

  pub next_action-wave-cons : (jm : JobMaster) (s : env.S) → next_action env jm s ≡ wave [] → ⊥
  unfolding next_action
  next_action-wave-cons jm s h = ground arith

  -- A wave leaves fewer nodes unsettled.
  wave_progress :
      (jm : JobMaster) (s : env.S) (ns : List String)
      → HasPlans jm
      → next_action env jm s ≡ wave ns
      → unsettled (run_wave env ns (jm, s)).0 < unsettled jm
  wave_progress jm s [] plans h = absurd (next_action-wave-cons jm s h)
  wave_progress jm s (n ∷ ns) plans h =
      let r = (next_action-wave jm s (n ∷ ns) h).0 in
      let (m, f, d) = mem-ready jm n (subst (λ l. Memᴰ n l) (sym r) (Memᴰ.head refl)) in
      let st = run_node env n (jm, s) in
      let one = run_node-Settles env n jm s (plans n m) in
      let first = unsettled-lt one.grows m f (is_settled_of_has_run st.0 n one.ran_self) in
      let rest = unsettled-Grows (run_wave-Grows env ns st.0 st.1) in
      unfold run_wave in omega (arith, first, rest)

  -- The loop ends within `fuel` turns, in a state that `P` holds of, and the turn in that state is
  -- one that runs no wave.
  abbrev pub Finishes {κ} :
      (JobMaster → env.S → Type κ) → ℕ → Flow → FlowRun → JobMaster → env.S → Type κ
  Finishes P fuel spec run jm s =
      (o : Outcome env) × (jm' : JobMaster) × (s' : env.S) × (execute_loop env fuel spec run jm s
        ≡ some o)
      × (execute_loop env 1 spec run jm' s' ≡ some o)
      × P jm' s'

  turn {κ} :
      (P : JobMaster → env.S → Type κ) (fuel : ℕ) (spec : Flow) (run : FlowRun) (jm : JobMaster)
      (s : env.S)
      → P jm s
      → (a : Action) → next_action env jm s ≡ a
      → ((ns : List String)
          → next_action env jm s ≡ wave ns
          → Finishes P fuel spec run (run_wave env ns (jm, s)).0 (run_wave env ns (jm, s)).1)
      → Finishes P (suc fuel) spec run jm s
  unfolding execute_loop
  turn P fuel spec run jm s p (cancel x) e ih = (
    record { end = cancelled x; jm = jm; run = run; env_state = s; posted = [] },
    jm,
    s,
    rw (e, execute_loop),
    rw (e, execute_loop),
    p,
  )
  turn P fuel spec run jm s p report_failed e ih = (
    report env spec run_failed (collect_first_error jm) run jm s,
    jm,
    s,
    rw (e, execute_loop),
    rw (e, execute_loop),
    p,
  )
  turn P fuel spec run jm s p report_completed e ih = (
    report env spec run_completed run.error run jm s,
    jm,
    s,
    rw (e, execute_loop),
    rw (e, execute_loop),
    p,
  )
  turn P fuel spec run jm s p stall e ih = (
    record { end = stalled; jm = jm; run = run; env_state = s; posted = [] },
    jm,
    s,
    rw (e, execute_loop),
    rw (e, execute_loop),
    p,
  )
  turn P fuel spec run jm s p (wave ns) e ih =
      let (o, jm', s', all, last, p') = ih ns e in (o, jm', s', rw (e, execute_loop) all, last, p')

  -- What holds before the first turn and is kept by each wave holds at the last turn.
  pub loop_rule {κ} :
      (P : JobMaster → env.S → Type κ)
      → ((jm : JobMaster) (s : env.S) (ns : List String)
          → P jm s
          → next_action env jm s ≡ wave ns
          → P (run_wave env ns (jm, s)).0 (run_wave env ns (jm, s)).1)
      → (fuel : ℕ) (spec : Flow) (run : FlowRun) (jm : JobMaster) (s : env.S) → HasPlans jm
      → unsettled jm < fuel
      → P jm s
      → Finishes P fuel spec run jm s
  loop_rule P keep zero spec run jm s plans lt p = absurd (omega arith)
  loop_rule P keep (suc fuel) spec run jm s plans lt p =
      turn P fuel spec run jm s p (next_action env jm s) refl λ ns e.
        let st = run_wave env ns (jm, s) in
        loop_rule P keep fuel spec run st.0 st.1 (HasPlans-Grows (run_wave-Grows env ns jm s) plans)
          (omega (arith, wave_progress jm s ns plans e)) (keep jm s ns p e)
