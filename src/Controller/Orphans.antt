-- ===== src/Controller/Orphans.antt =====
-- Which deployments the collections of Collect reach.
use flowgent.Prelude.{
  ℕ, String, Option, none, some, List, [], ◌∷◌, ◌≡◌, refl, ◌⊎◌, inl, inr, Bool-cases, Option-cases,
  All, All-append, All-map, sym, subst,
}
use flowgent.Controller.Cleanup.{Cleanups, mark_cleanup}
use flowgent.Controller.Gc.{
  Deployment, flow_of, Deletion, Answer, done, not_found, failed, Cluster, Tick, Step,
  remove_deployment,
}
use flowgent.Controller.Collect.{
  reason_of, in_window, is_skipped, parent_of, collect_orphan, collect_runtime, collect_each,
  collect_listed,
}

pub Answer-cases : (a : Answer) → (a ≡ done) ⊎ ((a ≡ not_found) ⊎ (a ≡ failed))
Answer-cases done = inl refl
Answer-cases not_found = inr (inl refl)
Answer-cases failed = inr (inr refl)

module _ (bytes : String → List ℕ) (cluster : Cluster) where
  open cluster use {S, now}

  -- What holds of the deletions of each step holds of the loop's.
  pub collect_listed-All :
      (P : Deletion → Type 0) (f : Deployment → Cleanups → S → Step cluster)
      → ((d : Deployment) (cs : Cleanups) (s : S) → All P (f d cs s).2)
      → (ds : Option (List Deployment)) (cs : Cleanups) (s : S)
      → All P (collect_listed bytes cluster f ds cs s).2
  unfolding collect_listed collect_each
  collect_listed-All P f h none cs s = tt
  collect_listed-All P f h (some []) cs s = tt
  collect_listed-All P f h (some (d ∷ ds)) cs s =
      All-append P _ _ (h d cs s) (collect_listed-All P f h (some ds) _ _)

  collect_orphan-target :
      (t : Tick) (d : Deployment) (cs : Cleanups) (s : S)
      → All (λ (x : Deletion). x.target ≡ d) (collect_orphan bytes cluster t d cs s).2
  unfolding collect_orphan remove_deployment
  collect_orphan-target t d cs s = elim (Option-cases (reason_of t (flow_of d))) [
    | inl e ↦
        elim (Bool-cases (in_window t (now s) (mark_cleanup cs d.namespace d.name (now s)).1)) [
          | inl w ↦ rw (collect_orphan, e, w) tt
          | inr w ↦ rw (collect_orphan, e, w) (refl, tt)
        ]
    | inr (r, e) ↦ rw (collect_orphan, e) (refl, tt)
  ]

  -- The parent is gone in some state.
  abbrev pub IsOrphan : Deployment → Type 0
  IsOrphan d = (s : S) × (parent_of bytes cluster d s ≡ not_found)

  collect_runtime-IsOrphan :
      (t : Tick) (d : Deployment) (cs : Cleanups) (s : S)
      → All (λ (x : Deletion). IsOrphan x.target) (collect_runtime bytes cluster t d cs s).2
  unfolding collect_runtime
  collect_runtime-IsOrphan t d cs s = elim (Bool-cases (is_skipped bytes cluster t d)) [
    | inl k ↦ rw (collect_runtime, k) tt
    | inr k ↦ elim (Answer-cases (parent_of bytes cluster d s)) [
      | inl e ↦ rw (collect_runtime, k, e) tt
      | inr (inl e) ↦
          rw (collect_runtime, k, e)
            (All-map _ _
              (λ (x : Deletion) q.
                (s, subst (λ z. parent_of bytes cluster z s ≡ not_found) (sym q) e))
              _ (collect_orphan-target t d cs s))
      | inr (inr e) ↦ rw (collect_runtime, k, e) tt
    ]
  ]

-- The collection of the deployments that job managers manage asks for the deletion of those only
-- whose parent is gone: the cluster answers, in some state, that it is not found, or the labels that
-- name it are missing. While the answer is that it exists, or an error, they stay.
pub collect_runtimes-IsOrphan :
    (bytes : String → List ℕ) (cluster : Cluster) (t : Tick) (ds : Option (List Deployment))
    (cs : Cleanups) (s : cluster.S)
    → All
        (λ (x : Deletion). IsOrphan bytes cluster x.target)
        (collect_listed bytes cluster (collect_runtime bytes cluster t) ds cs s).2
collect_runtimes-IsOrphan bytes cluster t =
    collect_listed-All bytes cluster _ _ (collect_runtime-IsOrphan bytes cluster t)
