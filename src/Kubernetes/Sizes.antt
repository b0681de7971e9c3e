-- ===== src/Kubernetes/Sizes.antt =====
-- The sizes that the scaling of kubernetes.go aims at.
use native.Mathlib.Nat.{mod-lt, div-add-mod'}
use flowgent.Prelude.{
  Bool, true, ◌^◌, ℕ, zero, suc, ◌+◌, ◌-◌, ◌*◌, ◌/◌, ◌≤◌, ◌<◌, String, Option, none, some, ◌≡◌, ◌⊎◌,
  inl, inr, refl, sym, ap, ◌∙◌, subst, ltb, eqb, arith, Bool-cases, Option-cases, none-some,
  some_inj,
}
use flowgent.Prelude.Int.{ℤ, pos, negsuc}
use flowgent.Kubernetes.Settings.{Config, Pool, Settings, settings_of, positive_or}
use flowgent.Kubernetes.Pools.{
  Cluster, State, Kind, tms, sandboxes, pool_of, size_of, pending_of, resize, desired_count,
  desired_of, to_int32, is_enabled,
}
use flowgent.Kubernetes.Scaling.{
  grow, ensure_capacity, wait_ready, scale, ensure_deployment, replicas_of,
}

positive : (d : ℕ) (z : ℤ) → 0 < d → 0 < positive_or d z
unfolding positive_or
positive d (pos zero) h = h
positive d (pos (suc n)) h = omega arith
positive d (negsuc n) h = h

slots-positive : (c : Config) (k : Kind) → 0 < (pool_of (settings_of c) k).slots
unfolding settings_of
slots-positive c tms = positive 4 c.slots_per_tm (omega arith)
slots-positive c sandboxes = positive 4 c.sandbox_slots_per_pod (omega arith)

-- Work for so many pods fills no more slots than they have.
ceil : (n d : ℕ) → 0 < d → n ≤ ((n + d - 1) / d) * d
ceil n d h = omega (arith, div-add-mod' (n + d - 1) d, mod-lt (n + d - 1) h)

-- The pool has a slot for each piece of pending work, or is as large as it may get.
abbrev pub Suffices : Pool → ℕ → ℕ → Type 0
Suffices p pending size = (pending ≤ size * p.slots) ⊎ (p.most ≤ size)

mul_mono : (a b c : ℕ) → a ≤ b → a * c ≤ b * c
mul_mono a b c h = grind arith

desired_count-Suffices :
    (p : Pool) (pending : ℕ) → 0 < p.slots → Suffices p pending (desired_count true p pending)
unfolding desired_count
desired_count-Suffices p pending h =
    let needed = (pending + p.slots - 1) / p.slots in
    let enough : pending ≤ needed * p.slots = ceil pending p.slots h in
    let more : needed ≤ p.least → needed * p.slots ≤ p.least * p.slots =
      mul_mono needed p.least p.slots in
    elim (Bool-cases (eqb pending 0)) [
      | inl e ↦ rw (desired_count, e) (inl (ground arith))
      | inr e ↦ ground (arith, enough, more)
    ]

Suffices-mono : (p : Pool) (pending a b : ℕ) → a ≤ b → Suffices p pending a → Suffices p pending b
Suffices-mono p pending a b h (inl e) = let m = mul_mono a b p.slots h in inl (omega arith)
Suffices-mono p pending a b h (inr e) = inr (omega arith)

size-resize : (k : Kind) (n : ℕ) (st : State) → size_of k (resize k n st) ≡ n
size-resize tms n st = refl
size-resize sandboxes n st = refl

pending-resize : (k : Kind) (n : ℕ) (st : State) → pending_of k (resize k n st) ≡ pending_of k st
pending-resize tms n st = refl
pending-resize sandboxes n st = refl

module _ (settings : Settings) (cluster : Cluster State) where
  open cluster use {S, find}

  -- Without a failure the recorded size has reached the target.
  grow-size :
      (k : Kind) (st : State) (s : S)
      → (grow settings cluster k st s).2 ≡ none
      → to_int32 (desired_of settings k st) ≤ size_of k (grow settings cluster k st s).1
  unfolding grow
  grow-size k st s h =
      let target = desired_of settings k st in
      let replicas = to_int32 target in
      let s1 = (ensure_deployment settings cluster k s).0 in
      let found = (find (pool_of settings k).name s1).1 in
      let s2 = (find (pool_of settings k).name s1).0 in
      elim (Bool-cases (eqb target 0)) [
        | inl e ↦ rw (grow, e) (ground (arith, e))
        | inr e ↦ elim (Option-cases (ensure_deployment settings cluster k s).1) [
          | inr (x, q) ↦ absurd (none-some (sym (rw (grow, e, q) at h)))
          | inl q ↦ elim (Bool-cases (ltb (replicas_of settings cluster found) replicas)) [
            | inl small ↦ elim (Option-cases (scale settings cluster k replicas s2).1) [
              | inr (x, r) ↦ absurd (none-some (sym (rw (grow, e, q, small, r) at h)))
              | inl r ↦ rw (grow, e, q, small, r) (rw (size-resize) (omega arith))
            ]
            | inr big ↦ elim (Bool-cases (ltb (size_of k st) replicas)) [
              | inl low ↦ rw (grow, e, q, big, low) (rw (size-resize) (ground (arith, big)))
              | inr high ↦ rw (grow, e, q, big, high) (ground (arith, high))
            ]
          ]
        ]
      ]

  -- The state is that of `grow`, which failed if the whole does not succeed.
  ensure_capacity-state :
      (fuel : ℕ) (k : Kind) (not_ready : String) (st : State) (s s' : S) (st' : State)
      (failure : Option String)
      → ensure_capacity settings cluster fuel k not_ready st s ≡ some (s', st', failure)
      → (st' ≡ (grow settings cluster k st s).1)
        × (failure ≡ none → (grow settings cluster k st s).2 ≡ none)
  unfolding ensure_capacity
  ensure_capacity-state fuel k not_ready st s s' st' failure h =
      let target = to_int32 (desired_of settings k st) in
      let g = grow settings cluster k st s in
      elim (Option-cases g.2) [
        | inr (e, q) ↦
            let r : ◌≡◌ {A = S × State × Option String} (g.0, g.1, some e) (s', st', failure) =
              some_inj (rw (ensure_capacity, q) at h) in
            (sym (ap (λ x. x.1) r), λ n. absurd (none-some (sym n ∙ sym (ap (λ x. x.2) r))))
        | inl q ↦ elim (Bool-cases (eqb target 0)) [
          | inl e ↦
              let r : ◌≡◌ {A = S × State × Option String} (g.0, g.1, none) (s', st', failure) =
                some_inj (rw (ensure_capacity, q, e) at h) in
              (sym (ap (λ x. x.1) r), λ n. q)
          | inr e ↦
              elim (Option-cases
                (wait_ready settings cluster fuel k not_ready target (cluster.start g.0))) [
                  | inl w ↦ absurd (none-some (rw (ensure_capacity, q, e, w) at h))
                  | inr ((s'', answer), w) ↦
                      let r : ◌≡◌ {A = S × State × Option String} (s'', g.1, answer)
                          (s', st', failure) =
                        some_inj (rw (ensure_capacity, q, e, w) at h) in
                      (sym (ap (λ x. x.1) r), λ n. q)
                ]
        ]
      ]

-- A pool that is used, with bounds of its size that fit in an int32.
pub record IsUsed (settings : Settings) (k : Kind) : Type 0 where
  pub enabled : is_enabled settings k ≡ true
  pub least_fits : (pool_of settings k).least < 2 ^ 31
  pub most_fits : (pool_of settings k).most < 2 ^ 31

to_int32-same : (n : ℕ) → n < 2 ^ 31 → to_int32 n ≡ n
unfolding to_int32
to_int32-same n h = ground arith

desired_count-below :
    (enabled : Bool) (p : Pool) (pending : ℕ)
    → p.least < 2 ^ 31
    → p.most < 2 ^ 31
    → desired_count enabled p pending < 2 ^ 31
unfolding desired_count
desired_count-below enabled p pending h k = ground arith

desired_count-fits :
    (enabled : Bool) (p : Pool) (pending : ℕ)
    → p.least < 2 ^ 31
    → p.most < 2 ^ 31
    → to_int32 (desired_count enabled p pending) ≡ desired_count enabled p pending
desired_count-fits enabled p pending h k =
    to_int32-same (desired_count enabled p pending) (desired_count-below enabled p pending h k)

-- When the capacity for task managers, or for sandboxes that are enabled, was ensured without an
-- error, under a configuration whose bounds fit in an int32, the size that the manager records has a
-- slot for each pending piece of work, or is the configured maximum or more.
pub ensure_capacity-Suffices :
    (c : Config) (cluster : Cluster State) (fuel : ℕ) (k : Kind) (not_ready : String) (st : State)
    (s s' : cluster.S) (st' : State)
    → IsUsed (settings_of c) k
    → ensure_capacity (settings_of c) cluster fuel k not_ready st s ≡ some (s', st', none)
    → Suffices (pool_of (settings_of c) k) (pending_of k st) (size_of k st')
ensure_capacity-Suffices c cluster fuel k not_ready st s s' st' used h =
    let settings = settings_of c in
    let (same, succeeds) =
      ensure_capacity-state settings cluster fuel k not_ready st s s' st' none h in
    let p = pool_of settings k in
    let pending = pending_of k st in
    let large = grow-size settings cluster k st s (succeeds refl) in
    let fits =
      desired_count-fits (is_enabled settings k) p pending used.least_fits used.most_fits in
    let enough =
      subst (λ z. Suffices p pending (desired_count z p pending)) (sym used.enabled)
        (desired_count-Suffices p pending (slots-positive c k)) in
    subst (λ z. Suffices p pending (size_of k z)) (sym same)
      (Suffices-mono p pending (desired_of settings k st) _
        (subst (λ z. z ≤ size_of k (grow settings cluster k st s).1) fits large) enough)
