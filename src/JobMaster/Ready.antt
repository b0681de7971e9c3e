-- ===== src/JobMaster/Ready.antt =====
-- Which nodes `Ready` of jobmaster.go returns, and how that relates to `IsComplete`.
use mathlib.Core.List.Memᴰ
use mathlib.Core.Bool.{true≢false}
use flowgent.Prelude.{
  is_empty, String, Bool, true, false, not, List, [], ◌∷◌, ◌≡◌, refl, ◌&&◌, ◌⊎◌, ◌↔◌, inl, inr,
  Memᴰ, arith, subst, sym, ap, ◌∙◌, Bool-cases, mem-select, select-mem,
}
use flowgent.JobMaster.Graph.{
  JobMaster, deps_of, is_satisfied, is_settled, has_condition, deps_loop, deps_done, ready,
}

-- Each of the dependencies is completed or skipped, or its edge has a condition.
abbrev pub Met : JobMaster → String → List String → Type 0
Met jm n ds = (d : String) → Memᴰ d ds → (is_satisfied jm d ≡ true) ⊎ (has_condition jm d n ≡ true)

-- One of them is completed or skipped.
abbrev pub SomeSatisfied : JobMaster → List String → Type 0
SomeSatisfied jm ds = (d : String) × Memᴰ d ds × (is_satisfied jm d ≡ true)

module _ (jm : JobMaster) (n : String) where
  loop-Met : (any : Bool) (ds : List String) → deps_loop jm n any ds ≡ true → Met jm n ds
  unfolding deps_loop
  loop-Met any [] h d m = absurd (Memᴰ.not-nil m)
  loop-Met any (e ∷ ds) h d (Memᴰ.head q) =
      subst (λ x. (is_satisfied jm x ≡ true) ⊎ (has_condition jm x n ≡ true)) (sym q) (ground arith)
  loop-Met any (e ∷ ds) h d (Memᴰ.tail m) = elim (Bool-cases (is_satisfied jm e)) [
    | inl s ↦ loop-Met true ds (ground arith) d m
    | inr s ↦ loop-Met any ds (ground arith) d m
  ]

  loop_some :
      (any : Bool) (ds : List String)
      → deps_loop jm n any ds ≡ true
      → (any ≡ true) ⊎ SomeSatisfied jm ds
  unfolding deps_loop
  loop_some any [] h = inl h
  loop_some any (e ∷ ds) h = elim (Bool-cases (is_satisfied jm e)) [
    | inl s ↦ inr (e, Memᴰ.head refl, s)
    | inr s ↦ elim (loop_some any ds (ground arith)) [
      | inl a ↦ inl a
      | inr (d, m, t) ↦ inr (d, Memᴰ.tail m, t)
    ]
  ]

  later :
      {any : Bool} (e : String) (ds : List String)
      → is_satisfied jm e ≡ false
      → (any ≡ true) ⊎ SomeSatisfied jm (e ∷ ds)
      → (any ≡ true) ⊎ SomeSatisfied jm ds
  later e ds s (inl a) = inl a
  later e ds s (inr (d, Memᴰ.tail m, t)) = inr (d, m, t)
  later e ds s (inr (d, Memᴰ.head q, t)) = absurd (true≢false (sym t ∙ ap (is_satisfied jm) q ∙ s))

  loop_of_Met :
      (any : Bool) (ds : List String)
      → Met jm n ds
      → (any ≡ true) ⊎ SomeSatisfied jm ds
      → deps_loop jm n any ds ≡ true
  unfolding deps_loop
  loop_of_Met any [] met (inl a) = a
  loop_of_Met any [] met (inr (d, m, t)) = absurd (Memᴰ.not-nil m)
  loop_of_Met any (e ∷ ds) met o = elim (Bool-cases (is_satisfied jm e)) [
    | inl s ↦ rw (s, deps_loop) (loop_of_Met true ds (λ d m. met d (Memᴰ.tail m)) (inl refl))
    | inr s ↦
        let rest = loop_of_Met any ds (λ d m. met d (Memᴰ.tail m)) (later e ds s o) in
        elim (met e (Memᴰ.head refl)) [ inl t ↦ ground arith | inr c ↦ rw (s, c, deps_loop) rest ]
  ]

  -- `depsDone` holds exactly when each dependency is completed, skipped or behind a condition, and
  -- there is none or one of them is completed or skipped.
  pub deps_done_iff : (deps_done jm n ≡ true) ↔ (
      Met jm n (deps_of jm n)
      × ((is_empty (deps_of jm n) ≡ true) ⊎ SomeSatisfied jm (deps_of jm n)))
  unfolding deps_done
  deps_done_iff = (
    λ h. (loop-Met _ (deps_of jm n) h, loop_some _ (deps_of jm n) h),
    λ h. loop_of_Met (is_empty (deps_of jm n)) (deps_of jm n) h.0 h.1,
  )

  -- A ready node is a node of the graph that is not settled, with its dependencies done.
  pub mem-ready :
      Memᴰ n (ready jm) → Memᴰ n jm.nodes × (is_settled jm n ≡ false) × (deps_done jm n ≡ true)
  unfolding ready
  mem-ready m =
      let (i, t) = mem-select (λ x. not (is_settled jm x) && deps_done jm x) jm.nodes n m in
      (i, ground arith, ground arith)

  pub ready-mem :
      Memᴰ n jm.nodes → is_settled jm n ≡ false → deps_done jm n ≡ true → Memᴰ n (ready jm)
  unfolding ready
  ready-mem m s d = select-mem (λ x. not (is_settled jm x) && deps_done jm x) m (ground arith)
