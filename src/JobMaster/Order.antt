-- ===== src/JobMaster/Order.antt =====
-- The dependency order of a run of `Execute` (jobmaster.go), and that the run returns.
use mathlib.Core.Bool.{true≢false}
use flowgent.Prelude.{String, true, some, List, [], ◌∷◌, ◌≡◌, sym, subst, ◌∙◌, ◌⊎◌, inl, inr, Memᴰ}
use flowgent.Dag.{Flow, FlowRun}
use flowgent.JobMaster.Graph.{JobMaster, deps_of, is_satisfied, has_condition}
use flowgent.JobMaster.Execute.{Env, Outcome, next_action, wave, run_node, run_wave, execute, start}
use flowgent.JobMaster.Grows.{has_run, Grows, Grows-refl, Grows-trans, is_satisfied_mono}
use flowgent.JobMaster.Waves.{run_node-Grows, run_node_only, run_wave-Grows}
use flowgent.JobMaster.Ready.{Met, deps_done_iff, mem-ready}
use flowgent.JobMaster.Loop.{next_action-wave}
use flowgent.JobMaster.Ends.{execute_rule, jm-last_turn}
use flowgent.JobMaster.Start.{HasEdge, start-IsStart}

-- Each node that has run came behind its dependencies.
abbrev pub Ordered : JobMaster → Type 0
Ordered jm = (n : String) → has_run jm n ≡ true → Met jm n (deps_of jm n)

has_condition-Grows :
    {a b : JobMaster} → Grows a b → (d n : String) → has_condition b d n ≡ has_condition a d n
unfolding has_condition
has_condition-Grows g d n = simp g.edge_conditions

pub deps_of-Grows : {a b : JobMaster} → Grows a b → (n : String) → deps_of b n ≡ deps_of a n
unfolding deps_of
deps_of-Grows g n = simp g.deps

Met-Grows :
    {a b : JobMaster} → Grows a b → (n : String) → Met a n (deps_of a n) → Met b n (deps_of b n)
Met-Grows g n met d m = elim (met d (subst (λ l. Memᴰ d l) (deps_of-Grows g n) m)) [
  | inl s ↦ inl (is_satisfied_mono g d s)
  | inr c ↦ inr (rw (has_condition-Grows g d n) c)
]

module _ (env : Env) where
  wave_Ordered :
      (ns : List String) (jm : JobMaster) (s : env.S)
      → ((n : String) → Memᴰ n ns → Met jm n (deps_of jm n))
      → Ordered jm
      → Ordered (run_wave env ns (jm, s)).0
  unfolding run_wave
  wave_Ordered [] jm s met ord = ord
  wave_Ordered (n ∷ ns) jm s met ord =
      let st = run_node env n (jm, s) in
      let g = run_node-Grows env n jm s in
      wave_Ordered ns st.0 st.1 (λ m h. Met-Grows g m (met m (Memᴰ.tail h)))
        λ m r. Met-Grows g m (elim (run_node_only env n jm s m r) [
          | inl e ↦ met m (Memᴰ.head e)
          | inr old ↦ ord m old
        ])

  turn_Ordered :
      (jm : JobMaster) (s : env.S) (ns : List String)
      → Ordered jm
      → next_action env jm s ≡ wave ns
      → Ordered (run_wave env ns (jm, s)).0
  turn_Ordered jm s ns ord h =
      let r = (next_action-wave env jm s ns h).0 in
      wave_Ordered ns jm s
        (λ n m. ((deps_done_iff jm n).0 (mem-ready jm n (subst (λ l. Memᴰ n l) (sym r) m)).2).0) ord

  -- For every flow, environment and earlier state, `Execute` returns; and for each edge of the flow
  -- whose target was completed or failed by then, the source is completed or skipped, or the edge has
  -- a condition.
  pub execute-ordered :
      (run : FlowRun) (spec : Flow) (jm : JobMaster) (s : env.S)
      → (o : Outcome env) × (execute env run spec jm s ≡ some o)
        × ((d n : String)
            → HasEdge spec d n
            → has_run o.jm n ≡ true
            → (is_satisfied o.jm d ≡ true) ⊎ (has_condition o.jm d n ≡ true))
  unfolding execute
  execute-ordered run spec jm s =
      let b = start-IsStart (env.now s) run spec jm in
      let jm0 = start (env.now s) run spec jm in
      let (o, jm', s', all, last, (g, ord)) =
        execute_rule env (λ a t. Grows jm0 a × Ordered a)
          (λ a t ns p h. (Grows-trans p.0 (run_wave-Grows env ns a t), turn_Ordered a t ns p.1 h))
          run spec jm s (λ t. (Grows-refl jm0, λ n r. absurd (true≢false (sym r ∙ b.unrun n)))) in
      let e = jm-last_turn env spec _ jm' s' last in
      (
        o,
        all,
        λ d n edge r. rw e (
            ord n (subst (λ z. has_run z n ≡ true) e r) d
              (subst (λ l. Memᴰ d l) (sym (deps_of-Grows g n)) (b.dep_of_edge d n edge))),
      )
