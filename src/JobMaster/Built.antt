-- ===== src/JobMaster/Built.antt =====
-- The loops of `buildExecutionGraph` in jobmaster.go, each by what it changes of the state.
use mathlib.Core.List.Memᴰ
use flowgent.Prelude.{
  ℕ, String, true, List, [], ◌∷◌, ◌++◌, ◌≡◌, refl, sym, ap, ◌∙◌, ◌⊎◌, inl, inr, ◌==◌, Memᴰ, map,
  arith, eq_iff, Bool-cases, if◌then◌else◌,
}
use flowgent.Prelude.Dict.{get, put, get_or, get-put}
use flowgent.Dag.{Node, Flow}
use flowgent.JobMaster.Graph.{JobMaster, EdgeCondition, set_edge_conditions, deps_of}
use flowgent.JobMaster.Build.{add_nodes, add_edges, make_plan, add_plans, apply_supervisor_config}
use flowgent.JobMaster.Grows.{has_plan}

pub record SameGraph (a b : JobMaster) : Type 0 where
  pub nodes : b.nodes ≡ a.nodes
  pub deps : b.deps ≡ a.deps
  pub completed : b.completed ≡ a.completed
  pub skipped : b.skipped ≡ a.skipped
  pub failed : b.failed ≡ a.failed

pub SameGraph-trans : {a b c : JobMaster} → SameGraph a b → SameGraph b c → SameGraph a c
SameGraph-trans g h = record {
  nodes = h.nodes ∙ g.nodes;
  deps = h.deps ∙ g.deps;
  completed = h.completed ∙ g.completed;
  skipped = h.skipped ∙ g.skipped;
  failed = h.failed ∙ g.failed;
}

SameGraph-refl : (a : JobMaster) → SameGraph a a
SameGraph-refl a = record {
  nodes = refl;
  deps = refl;
  completed = refl;
  skipped = refl;
  failed = refl;
}

pub SameGraph-set_edge_conditions :
    (ecs : List EdgeCondition) (jm : JobMaster) → SameGraph jm (set_edge_conditions ecs jm)
unfolding set_edge_conditions
SameGraph-set_edge_conditions [] jm = SameGraph-refl jm
SameGraph-set_edge_conditions (ec ∷ ecs) jm =
    SameGraph-trans
      (record { nodes = refl; deps = refl; completed = refl; skipped = refl; failed = refl })
      (SameGraph-set_edge_conditions ecs _)

pub SameGraph-add_plans :
    (now : ℕ) (spec : Flow) (id : String) (ns : List Node) (jm : JobMaster)
    → SameGraph jm (add_plans now spec id ns jm)
unfolding add_plans
SameGraph-add_plans now spec id [] jm = SameGraph-refl jm
SameGraph-add_plans now spec id (n ∷ ns) jm =
    SameGraph-trans
      (record { nodes = refl; deps = refl; completed = refl; skipped = refl; failed = refl })
      (SameGraph-add_plans now spec id ns
        (record jm { plan_map = put jm.plan_map n.id (make_plan now spec id n) }))

-- The state in which the loops over nodes and edges leave the marks.
pub record Fresh (ns : List String) (jm : JobMaster) : Type 0 where
  pub nodes : jm.nodes ≡ ns
  pub completed : jm.completed ≡ []
  pub skipped : jm.skipped ≡ []
  pub failed : jm.failed ≡ []

pub Fresh-add_nodes :
    (l ns : List String) (jm : JobMaster) → Fresh ns jm → Fresh ns (add_nodes l jm)
unfolding add_nodes
Fresh-add_nodes [] ns jm f = f
Fresh-add_nodes (n ∷ l) ns jm f =
    Fresh-add_nodes l ns _
      (record { nodes = f.nodes; completed = f.completed; skipped = f.skipped; failed = f.failed })

pub Fresh-add_edges :
    (es : List (String × String)) (ns : List String) (jm : JobMaster)
    → Fresh ns jm
    → Fresh ns (add_edges es jm)
unfolding add_edges
Fresh-add_edges [] ns jm f = f
Fresh-add_edges ((x, y) ∷ es) ns jm f =
    Fresh-add_edges es ns _
      (record { nodes = f.nodes; completed = f.completed; skipped = f.skipped; failed = f.failed })

pub Fresh-Same : {ns : List String} {a b : JobMaster} → SameGraph a b → Fresh ns a → Fresh ns b
Fresh-Same g f = record {
  nodes = g.nodes ∙ f.nodes;
  completed = g.completed ∙ f.completed;
  skipped = g.skipped ∙ f.skipped;
  failed = g.failed ∙ f.failed;
}

has_plan-add_plans_kept :
    (now : ℕ) (spec : Flow) (id : String) (ns : List Node) (jm : JobMaster) (m : String)
    → has_plan jm m ≡ true
    → has_plan (add_plans now spec id ns jm) m ≡ true
unfolding add_plans has_plan
has_plan-add_plans_kept now spec id [] jm m h = h
has_plan-add_plans_kept now spec id (n ∷ ns) jm m h =
    has_plan-add_plans_kept now spec id ns _ m
      (ground (arith, get-put jm.plan_map n.id (make_plan now spec id n) m))

pub has_plan-add_plans :
    (now : ℕ) (spec : Flow) (id : String) (ns : List Node) (jm : JobMaster) (m : String)
    → Memᴰ m (map (λ (n : Node). n.id) ns)
    → has_plan (add_plans now spec id ns jm) m ≡ true
unfolding add_plans has_plan
has_plan-add_plans now spec id [] jm m h = absurd (Memᴰ.not-nil h)
has_plan-add_plans now spec id (n ∷ ns) jm m (Memᴰ.head e) =
    has_plan-add_plans_kept now spec id ns _ m
      (ground (arith, get-put jm.plan_map n.id (make_plan now spec id n) m, eq_iff n.id m))
has_plan-add_plans now spec id (n ∷ ns) jm m (Memᴰ.tail h) = has_plan-add_plans now spec id ns _ m h

-- Dependencies: none at first, then one for each edge.
pub deps_of-add_nodes :
    (l : List String) (jm : JobMaster) (n : String)
    → deps_of jm n ≡ []
    → deps_of (add_nodes l jm) n ≡ []
unfolding add_nodes deps_of
deps_of-add_nodes [] jm n h = h
deps_of-add_nodes (m ∷ l) jm n h = deps_of-add_nodes l _ n (ground (arith, get-put jm.deps m [] n))

deps_of-add_edge :
    (jm : JobMaster) (x y n : String)
    → get_or [] (get (put jm.deps y (get_or [] (get jm.deps y) ++ (x ∷ []))) n)
      ≡ (if y == n then get_or [] (get jm.deps n) ++ (x ∷ []) else get_or [] (get jm.deps n))
deps_of-add_edge jm x y n =
    ground (arith, get-put jm.deps y (get_or [] (get jm.deps y) ++ (x ∷ [])) n, eq_iff y n)

mem-deps_kept :
    (es : List (String × String)) (jm : JobMaster) (d n : String)
    → Memᴰ d (deps_of jm n)
    → Memᴰ d (deps_of (add_edges es jm) n)
unfolding add_edges deps_of
mem-deps_kept [] jm d n m = m
mem-deps_kept ((x, y) ∷ es) jm d n m = mem-deps_kept es _ d n (elim (Bool-cases (y == n)) [
  | inl e ↦ rw (deps_of-add_edge, e) (Memᴰ.append_left (x ∷ []) m)
  | inr e ↦ rw (deps_of-add_edge, e) m
])

pub mem-deps :
    (es : List (String × String)) (jm : JobMaster) (d n : String)
    → Memᴰ (d, n) es
    → Memᴰ d (deps_of (add_edges es jm) n)
unfolding add_edges deps_of
mem-deps [] jm d n m = absurd (Memᴰ.not-nil m)
mem-deps ((x, y) ∷ es) jm d n (Memᴰ.head e) =
    let en : (y == n) ≡ true = (eq_iff y n).1 (sym (ap (λ (p : String × String). p.1) e)) in
    mem-deps_kept es _ d n (
      rw (deps_of-add_edge, en)
        (Memᴰ.append_right (get_or [] (get jm.deps n))
          (Memᴰ.head (ap (λ (p : String × String). p.0) e))))
mem-deps ((x, y) ∷ es) jm d n (Memᴰ.tail m) = mem-deps es _ d n m

pub edge_of_dep :
    (es : List (String × String)) (jm : JobMaster) (d n : String)
    → Memᴰ d (deps_of (add_edges es jm) n)
    → Memᴰ d (deps_of jm n) ⊎ Memᴰ (d, n) es
unfolding add_edges deps_of
edge_of_dep [] jm d n m = inl m
edge_of_dep ((x, y) ∷ es) jm d n m = elim (edge_of_dep es _ d n m) [
  | inr r ↦ inr (Memᴰ.tail r)
  | inl l ↦ elim (Bool-cases (y == n)) [
    | inr e ↦ inl (rw (deps_of-add_edge, e) at l)
    | inl e ↦ elim (Memᴰ.append_cases (get_or [] (get jm.deps n)) (rw (deps_of-add_edge, e) at l)) [
      | inl old ↦ inl old
      | inr (Memᴰ.head q) ↦ inr (Memᴰ.head (λ i. (q i, sym ((eq_iff y n).0 e) i)))
      | inr (Memᴰ.tail q) ↦ absurd (Memᴰ.not-nil q)
    ]
  ]
]

pub supervisor_frame :
    (ns : List Node) (jm : JobMaster)
    → apply_supervisor_config ns jm
      ≡ record jm { max_nodes = (apply_supervisor_config ns jm).max_nodes }
unfolding apply_supervisor_config
supervisor_frame [] jm = refl
supervisor_frame (n ∷ ns) jm = supervisor_frame ns _
