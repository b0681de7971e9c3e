-- ===== src/Controller/Alive.antt =====
-- What a tick of controller.go knows of the flows and their runs.
use flowgent.Prelude.{
  ℕ, String, Bool, true, false, some, List, [], ◌∷◌, ◌==◌, ◌||◌, ◌≡◌, ◌<◌, inl, inr, refl, sym,
  subst, Memᴰ, All, All-map, arith, ltb, is_some, eq_iff, eq_refl, Bool-cases, Option-cases,
  true-false, none-some, some_inj,
}
use flowgent.Prelude.Dict.{Dict, get, put, flag, flag-put}
use flowgent.Dag.{Flow, RunStatus}
use flowgent.Discovery.{Peer}
use flowgent.Controller.Shard.{owns_flow}
use flowgent.Controller.View.{
  Server, FlowVersion, see_version, see_all, has_run, active_statuses, collect_active,
}

All-put :
    {A : Type 0} (P : String × A → Type 0) (d : Dict A) (k : String) (v : A)
    → All P d
    → P (k, v)
    → All P (put d k v)
unfolding put
All-put P [] k v h p = (p, tt)
All-put P ((j, w) ∷ d) k v (h, hs) p = elim (Bool-cases (j == k)) [
  | inl e ↦ rw (put, e) (p, hs)
  | inr e ↦ rw (put, e) (h, All-put P d k v hs p)
]

pub flag-nil : (k : String) → flag [] k ≡ true → ⊥
unfolding flag get
flag-nil k h = true-false (sym h)

-- A key of a map is found.
pub All-get : {A : Type 0} (d : Dict A) → All (λ (e : String × A). is_some (get d e.0) ≡ true) d
unfolding get
All-get {A = A} [] = tt
All-get {A = A} ((k, v) ∷ d) =
    (rw (get, eq_refl k) refl, All-map _ _ (λ e h. later e h) d (All-get d))
  where
    later : (e : String × A) → is_some (get d e.0) ≡ true → is_some (get ((k, v) ∷ d) e.0) ≡ true
    later e h = elim (Bool-cases (k == e.0)) [ inl q ↦ rw (get, q) refl | inr q ↦ rw (get, q) h ]

module _ {S : Type 0} (server : Server S) where
  -- A page of the flow's runs of a status that is not over is not empty.
  pub record IsAlive (flow_id : String) : Type 0 where
    pub status : RunStatus
    pub at : S
    pub listed : Memᴰ status (active_statuses server)
    pub count : ℕ
    pub page : (server.list_runs flow_id status at).1 ≡ some count
    pub filled : 0 < count

  has_run-IsAlive :
      (flow_id : String) (statuses : List RunStatus) (s : S)
      → ((status : RunStatus) → Memᴰ status statuses → Memᴰ status (active_statuses server))
      → (has_run server flow_id statuses s).1 ≡ some true
      → IsAlive flow_id
  unfolding has_run
  has_run-IsAlive flow_id [] s sub h = absurd (true-false (sym (some_inj h)))
  has_run-IsAlive flow_id (status ∷ statuses) s sub h =
      elim (Option-cases (server.list_runs flow_id status s).1) [
        | inl q ↦ absurd (none-some (rw (has_run, q) at h))
        | inr (n, q) ↦ elim (Bool-cases (ltb 0 n)) [
          | inl e ↦ record {
            status = status;
            at = s;
            listed = sub status (Memᴰ.head refl);
            count = n;
            page = q;
            filled = ground (arith, e);
          }
          | inr e ↦
              has_run-IsAlive flow_id statuses (server.list_runs flow_id status s).0
                (λ x m. sub x (Memᴰ.tail m)) (rw (has_run, q, e) at h)
        ]
      ]

  module _ (bytes : String → List ℕ) (peers : List Peer) (self : Peer) where
    -- Every flow that is marked as active has a run.
    pub collect_active-IsAlive :
        (seen : Dict Flow) (active : Dict Bool) (s : S) (flow_id : String)
        → (flag active flow_id ≡ true → IsAlive flow_id)
        → flag (collect_active server bytes peers self seen active s).1 flow_id ≡ true
        → IsAlive flow_id
    unfolding collect_active
    collect_active-IsAlive [] active s flow_id before h = before h
    collect_active-IsAlive ((k, spec) ∷ seen) active s flow_id before h =
        elim (Bool-cases (owns_flow bytes peers self k)) [
          | inr o ↦
              collect_active-IsAlive seen active s flow_id before (rw (collect_active, o) at h)
          | inl o ↦
              let s' = (has_run server k (active_statuses server) s).0 in
              elim (Option-cases (has_run server k (active_statuses server) s).1) [
                | inl q ↦ before (rw (collect_active, o, q) at h)
                | inr (false, q) ↦
                    collect_active-IsAlive seen active s' flow_id before
                      (rw (collect_active, o, q) at h)
                | inr (true, q) ↦
                    collect_active-IsAlive seen (put active k true) s' flow_id (marked q)
                      (rw (collect_active, o, q) at h)
              ]
        ]
      where
        marked :
            (has_run server k (active_statuses server) s).1 ≡ some true
            → flag (put active k true) flow_id ≡ true
            → IsAlive flow_id
        marked q m = elim (Bool-cases (k == flow_id)) [
          | inl e ↦
              subst IsAlive ((eq_iff k flow_id).0 e)
                (has_run-IsAlive k (active_statuses server) s (λ x y. y) q)
          | inr e ↦ before (ground (arith, flag-put active k true flow_id, e, m))
        ]

  -- The definition that a version holds has the version's identifier.
  abbrev pub IsNamed : FlowVersion → Type 0
  IsNamed v = (spec : Flow) → server.decode v.definition ≡ some spec → spec.id ≡ v.flow_id

  -- A flow stands under its identifier.
  abbrev pub IsUnder : String × Flow → Type 0
  IsUnder e = e.1.id ≡ e.0

  see_version-AllUnder :
      (seen : Dict Flow) (v : FlowVersion)
      → IsNamed v
      → All IsUnder seen
      → All IsUnder (see_version server seen v)
  unfolding see_version
  see_version-AllUnder seen v named h = elim (Bool-cases (is_some (get seen v.flow_id))) [
    | inl e ↦ rw (see_version, e) h
    | inr e ↦ elim (Option-cases (server.decode v.definition)) [
      | inl q ↦ rw (see_version, e, q) h
      | inr (spec, q) ↦ elim (Bool-cases (spec.id == "" || server.equal_fold spec.kind "skill")) [
        | inl k ↦ rw (see_version, e, q, k) h
        | inr k ↦ rw (see_version, e, q, k) (All-put IsUnder seen v.flow_id spec h (named spec q))
      ]
    ]
  ]

  pub see_all-AllUnder :
      (vs : List FlowVersion) (seen : Dict Flow)
      → All IsNamed vs
      → All IsUnder seen
      → All IsUnder (see_all server seen vs)
  unfolding see_all
  see_all-AllUnder [] seen named h = h
  see_all-AllUnder (v ∷ vs) seen (n, ns) h =
      see_all-AllUnder vs (see_version server seen v) ns (see_version-AllUnder seen v n h)
