-- ===== src/Sandbox/Isolation.antt =====
-- Which policies the sandbox enforces: `BuildFilter`, `ScriptCmd` and `checkTarget` together.
use mathlib.Core.List.Memᴰ
use mathlib.Core.Bool.{true≢false}
use flowgent.Prelude.{
  ℕ, String, true, false, Option, none, some, List, [], ◌∷◌, ◌≡◌, refl, sym, ◌∙◌, subst, ◌⊎◌, ◌↔◌,
  ◌≢◌, inl, inr, Memᴰ, ◌==◌, ◌&&◌, arith, eq_iff, eqb, Bool-cases, some_inj, if◌then◌else◌,
}
use flowgent.Sandbox.Bpf.{Unix, build_bpf}
use flowgent.Sandbox.Policy.{
  IpPort, NetworkPolicy, Filter, Net, resolve_entries, filter_of_mode, build_filter, runs_directly,
}
use flowgent.Sandbox.Notifier.{Notifier, same_bytes, has_target, allows_target}

same_bytes_iff : (xs ys : List ℕ) → (same_bytes xs ys ≡ true) ↔ (xs ≡ ys)
unfolding same_bytes
same_bytes_iff [] [] = ((λ h. refl), λ h. refl)
same_bytes_iff [] (y ∷ ys) = ((λ h. absurd (cc)), λ h. absurd (cc))
same_bytes_iff (x ∷ xs) [] = ((λ h. absurd (cc)), λ h. absurd (cc))
same_bytes_iff (x ∷ xs) (y ∷ ys) =
    let rest = same_bytes_iff xs ys in ((λ h. ground (arith, rest.0)), λ h. ground (arith, rest.1))

same_target_iff : (e t : IpPort) → (same_bytes e.ip t.ip && eqb e.port t.port ≡ true) ↔ (t ≡ e)
same_target_iff e t = (
  λ h.
      let q = (same_bytes_iff e.ip t.ip).0 (ground arith) in
      let r : e.port ≡ t.port = ground arith in cc,
  λ h. rw h (ground (arith, (same_bytes_iff e.ip e.ip).1 refl)),
)

later-Memᴰ :
    {e t : IpPort} {es : List IpPort}
    → (has_target es t ≡ true) ↔ Memᴰ t es
    → same_bytes e.ip t.ip && eqb e.port t.port ≡ false
    → Memᴰ t (e ∷ es)
    → has_target es t ≡ true
later-Memᴰ {e} {t} rest s (Memᴰ.head q) = absurd (true≢false (sym ((same_target_iff e t).1 q) ∙ s))
later-Memᴰ rest s (Memᴰ.tail m) = rest.1 m

has_target_iff : (es : List IpPort) (t : IpPort) → (has_target es t ≡ true) ↔ Memᴰ t es
unfolding has_target
has_target_iff [] t = ((λ h. absurd (cc)), λ m. absurd (Memᴰ.not-nil m))
has_target_iff (e ∷ es) t = elim (Bool-cases (same_bytes e.ip t.ip && eqb e.port t.port)) [
  | inl s ↦ ((λ h. Memᴰ.head ((same_target_iff e t).0 s)), λ m. rw (s, has_target) refl)
  | inr s ↦
      rw (s, has_target)
        ((λ h. Memᴰ.tail ((has_target_iff es t).0 h)), later-Memᴰ (has_target_iff es t) s)
]

-- The targets that a notifier with these lists is to permit.
abbrev pub Permits : List IpPort → List IpPort → IpPort → Type 0
Permits allow deny t =
    (t.port ≡ 53) ⊎ (Memᴰ t allow ⊎ ((allow ≡ []) × ((deny ≢ []) × ¬ (Memᴰ t deny))))

abbrev pub notifier_of : Filter → Notifier
notifier_of f = record { allowlist = f.allowlist; denylist = f.denylist }

lists_iff :
    (allow deny : List IpPort) (t : IpPort)
    → t.port ≢ 53
    → ((elim allow [
      | e ∷ es ↦ has_target (e ∷ es) t
      | [] ↦ elim deny [ e ∷ es ↦ if has_target (e ∷ es) t then false else true | [] ↦ false ]
    ])
        ≡ true)
      ↔ Permits allow deny t
lists_iff (e ∷ es) deny t d =
    let on = has_target_iff (e ∷ es) t in
    (
      λ h. inr (inl (on.0 h)),
      λ h. elim h [
        | inl q ↦ absurd (d q)
        | inr (inl m) ↦ on.1 m
        | inr (inr (q, r)) ↦ absurd (cc q)
      ],
    )
lists_iff [] [] t d = (
  λ h. absurd (cc),
  λ h. elim h [
    | inl q ↦ absurd (d q)
    | inr (inl m) ↦ absurd (Memᴰ.not-nil m)
    | inr (inr (q, (r, n))) ↦ absurd (r refl)
  ],
)
lists_iff [] (e ∷ es) t d =
    let on = has_target_iff (e ∷ es) t in
    elim (Bool-cases (has_target (e ∷ es) t)) [
      | inl y ↦ rw y (
        λ h. absurd (cc),
        λ h. elim h [
          | inl q ↦ absurd (d q)
          | inr (inl m) ↦ absurd (Memᴰ.not-nil m)
          | inr (inr (q, (r, n))) ↦ absurd (n (on.0 y))
        ],
      )
      | inr y ↦
          rw y
            ((λ h. inr (inr (refl, ((λ q. cc q), λ m. true≢false (sym (on.1 m) ∙ y))))), λ h. refl)
    ]

target_iff :
    (allow deny : List IpPort) (t : IpPort)
    → (allows_target (record { allowlist = allow; denylist = deny }) t ≡ true)
      ↔ Permits allow deny t
unfolding allows_target
target_iff allow deny t = elim (Bool-cases (eqb t.port 53)) [
  | inl e ↦ ((λ h. inl (ground arith)), λ h. rw (e, allows_target) refl)
  | inr e ↦ rw (e, allows_target) (lists_iff allow deny t (ground arith))
]

-- The mode of a policy: none where it says nothing.
abbrev pub mode_of : NetworkPolicy → String
mode_of p = if p.mode == "" then "none" else p.mode

-- A policy asks for mode none, or there is none.
abbrev pub IsNone : Option NetworkPolicy → Type 0
IsNone none = Unit
IsNone (some p) = mode_of p ≡ "none"

module _ (net : Net) (unix : Unix) where
  -- A filter for a mode carries it, with the list of the mode's targets and the program.
  pub record IsFilterOf (mode : String) (p : NetworkPolicy) (f : Filter) : Type 0 where
    pub mode_is : f.mode ≡ mode
    pub program : f.fprog ≡ build_bpf unix mode
    pub allows :
        mode ≡ "allowlist" → (resolve_entries net p.allowed ≡ some f.allowlist) × (f.denylist ≡ [])
    pub denies :
        mode ≡ "denylist" → (resolve_entries net p.denied ≡ some f.denylist) × (f.allowlist ≡ [])
    pub bare : mode ≡ "none" → (f.allowlist ≡ []) × (f.denylist ≡ [])

  filter_of_mode-IsFilterOf :
      (mode : String) (p : NetworkPolicy) (f : Filter)
      → filter_of_mode net unix mode p ≡ some f
      → IsFilterOf mode p f
  unfolding filter_of_mode
  filter_of_mode-IsFilterOf mode p f h = record {
    mode_is = ground arith;
    program = ground arith;
    allows = λ e. let k = subst (λ m. filter_of_mode net unix m p ≡ some f) e h in ground arith;
    denies = λ e. let k = subst (λ m. filter_of_mode net unix m p ≡ some f) e h in ground arith;
    bare = λ e. ground (arith, eq_iff mode "none");
  }

  -- Of the filters that `BuildFilter` makes, `ScriptCmd` leaves out exactly those for no policy or one
  -- of mode none: under the strictest mode a script runs with no filter at all.
  pub runs_directly_iff :
      (policy : Option NetworkPolicy) (f : Filter)
      → build_filter net unix policy ≡ some f
      → (runs_directly (some f) ≡ true) ↔ IsNone policy
  unfolding build_filter runs_directly
  runs_directly_iff none f h = ((λ r. record {}), λ i. rw (← some_inj h) refl)
  runs_directly_iff (some p) f h =
      let b = filter_of_mode-IsFilterOf (mode_of p) p f h in
      (
        λ r. sym b.mode_is ∙ (eq_iff f.mode "none").0 (ground arith),
        λ i. ground (arith, b.bare i, eq_iff f.mode "none", b.mode_is),
      )

  -- The filter of a policy has the program and the list of the policy's mode; and its notifier allows
  -- a connection exactly to the DNS port, to a target on the allow list, or, where there is no allow
  -- list but a deny list, to a target that is not on it.
  pub allows_target_iff :
      (p : NetworkPolicy) (f : Filter) (t : IpPort)
      → build_filter net unix (some p) ≡ some f
      → IsFilterOf (mode_of p) p f
        × ((allows_target (notifier_of f) t ≡ true) ↔ Permits f.allowlist f.denylist t)
  unfolding build_filter
  allows_target_iff p f t h =
      (filter_of_mode-IsFilterOf (mode_of p) p f h, target_iff f.allowlist f.denylist t)
