-- ===== src/Kubernetes/Waits.antt =====
-- The waits of kubernetes.go end.
use flowgent.Prelude.{
  ℕ, zero, suc, ◌≤◌, ◌<◌, String, Bool, true, false, Option, some, ◌≡◌, ◌⊎◌, inl, inr, refl, ltb,
  eqb, ◌&&◌, arith, Bool-cases, Option-cases, is_some, value_of_is_some, ◌-◌, ◌*◌, if◌then◌else◌,
}
use flowgent.Kubernetes.Settings.{Settings}
use flowgent.Kubernetes.Pools.{
  Cluster, State, Kind, tms, sandboxes, pool_of, size_of, pending_of, resize, desired_of, to_int32,
  Wake, tick, cancelled, deadline,
}
use flowgent.Kubernetes.Scaling.{
  grow, ensure_capacity, wait_ready, is_ready, scale, reconcile_pool, reconcile,
}

-- The timer of a wait: fewer than `fuel` ticks come before it fires, the context ends, or the pods are
-- ready, and looking at a deployment sets it back by none.
pub record IsTimed (cluster : Cluster State) (fuel : ℕ) : Type 0 where
  pub left : cluster.S → ℕ
  pub started : (s : cluster.S) → left (cluster.start s) < fuel
  pub found : (name : String) (s : cluster.S) → left (cluster.find name s).0 ≤ left s
  pub ticked : (s : cluster.S) → (cluster.wait s).1 ≡ tick → left (cluster.wait s).0 < left s

Wake-cases : (w : Wake) → (w ≡ tick) ⊎ (((e : String) × (w ≡ cancelled e)) ⊎ (w ≡ deadline))
Wake-cases tick = inl refl
Wake-cases (cancelled e) = inr (inl (e, refl))
Wake-cases deadline = inr (inr refl)

module _ (settings : Settings) (cluster : Cluster State) {full : ℕ}
    (timed : IsTimed cluster full) where
  open cluster use {S, find, wait, start}

  wait_ready-returns :
      (fuel : ℕ) (k : Kind) (not_ready : String) (target : ℕ) (s : S)
      → timed.left s < fuel
      → is_some (wait_ready settings cluster fuel k not_ready target s) ≡ true
  unfolding wait_ready
  wait_ready-returns zero k not_ready target s h = absurd (omega arith)
  wait_ready-returns (suc fuel) k not_ready target s h =
      let s1 = (find (pool_of settings k).name s).0 in
      let looked = timed.found (pool_of settings k).name s in
      elim (Option-cases (is_ready settings cluster target (find (pool_of settings k).name s).1)) [
        | inr (answer, q) ↦ rw (wait_ready, q) refl
        | inl q ↦ elim (Wake-cases (wait s1).1) [
          | inl w ↦
              let later = timed.ticked s1 w in
              rw (wait_ready, q, w)
                (wait_ready-returns fuel k not_ready target (wait s1).0 (omega arith))
          | inr (inl (e, w)) ↦ rw (wait_ready, q, w) refl
          | inr (inr w) ↦ rw (wait_ready, q, w) refl
        ]
      ]

  ensure_capacity-returns :
      (k : Kind) (not_ready : String) (st : State) (s : S)
      → is_some (ensure_capacity settings cluster full k not_ready st s) ≡ true
  unfolding ensure_capacity
  ensure_capacity-returns k not_ready st s =
      let target = to_int32 (desired_of settings k st) in
      let g = grow settings cluster k st s in
      elim (Option-cases g.2) [
        | inr (e, q) ↦ rw (ensure_capacity, q) refl
        | inl q ↦ elim (Bool-cases (eqb target 0)) [
          | inl e ↦ rw (ensure_capacity, q, e) refl
          | inr e ↦
              elim (Option-cases
                (wait_ready settings cluster full k not_ready target (start g.0))) [
                  | inr (x, w) ↦ rw (ensure_capacity, q, e, w) refl
                  | inl w ↦
                      let some_result =
                        wait_ready-returns full k not_ready target (start g.0)
                          (timed.started g.0) in
                      absurd (ground (arith, w, some_result))
                ]
        ]
      ]

  reconcile_pool-returns :
      (k : Kind) (not_ready : String) (st : State) (s : S)
      → (r : S × State) × (reconcile_pool settings cluster full k not_ready st s ≡ some r)
  unfolding reconcile_pool
  reconcile_pool-returns k not_ready st s =
      let p = pool_of settings k in
      let current = size_of k st in
      elim (Bool-cases (ltb (current * p.slots) (pending_of k st))) [
        | inl busy ↦ elim (Bool-cases (ltb current (desired_of settings k st))) [
          | inl small ↦
              let ((s', st', failure), e) =
                value_of_is_some (ensure_capacity settings cluster full k not_ready st s)
                  (ensure_capacity-returns k not_ready st s) in
              ((s', st'), rw (reconcile_pool, busy, small, e) refl)
          | inr enough ↦ ((s, st), rw (reconcile_pool, busy, enough) refl)
        ]
        | inr free ↦
            elim (Bool-cases (
              ltb settings.idle_timeout (cluster.now s - st.last_activity)
              && ltb p.least current)) [
                | inr stay ↦ ((s, st), rw (reconcile_pool, free, stay) refl)
                | inl idle ↦
                    let target = if ltb (current - 1) p.least then p.least else current - 1 in
                    elim (Option-cases (scale settings cluster k target s).1) [
                      | inr (e, q) ↦ (
                        ((scale settings cluster k target s).0, st),
                        rw (reconcile_pool, free, idle, q) refl,
                      )
                      | inl q ↦
                          let st' = resize k target st in
                          (
                            (cluster.persist st' (scale settings cluster k target s).0, st'),
                            rw (reconcile_pool, free, idle, q) refl,
                          )
                    ]
              ]
      ]

-- A turn of the scaling loop ends for every state and whatever the cluster answers, given that the
-- timer of a wait fires: with as much fuel as there can be ticks before it does, it returns.
pub reconcile-returns :
    (settings : Settings) (cluster : Cluster State) (full : ℕ) (not_ready : String) (st : State)
    (s : cluster.S)
    → IsTimed cluster full
    → (r : cluster.S × State) × (reconcile settings cluster full not_ready st s ≡ some r)
unfolding reconcile
reconcile-returns settings cluster full not_ready st s timed =
    let (r, e) = reconcile_pool-returns settings cluster timed tms not_ready st s in
    let (q, f) = reconcile_pool-returns settings cluster timed sandboxes not_ready r.1 r.0 in
    rw (reconcile, e) (second settings.sandbox_enabled r q f)
  where
    second :
        {A : Type 0} {next : Option A} (b : Bool) (r q : A)
        → next ≡ some q
        → (x : A) × ((if b then next else some r) ≡ some x)
    second true r q f = (q, f)
    second false r q f = (r, refl)
