-- ===== src/Sandbox/Launches.antt =====
-- Which scripts `execute` (sandboxmanager.go) passes on to the calls that start them.
use flowgent.Prelude.{
  true-false, All, String, true, false, List, [], ◌∷◌, ◌==◌, ◌≡◌, ◌≢◌, ◌⊎◌, ◌↔◌, inl, inr, refl,
  sym, ◌∙◌, subst, Memᴰ, eq_iff, Bool-cases,
}
use flowgent.Sandbox.Manager.{
  SandboxPolicy, Manager, Trigger, Launch, refused, docker, in_process, Strings, has_runtime,
  is_runtime_allowed, first_banned, check_banned, runtime_of, launch,
}

-- The script is passed on to executeInDocker or executeInProcess, which may still refuse it.
abbrev pub IsPassedOn : Launch → Type 0
IsPassedOn (refused e) = ⊥
IsPassedOn (docker runtime network timeout) = Unit
IsPassedOn (in_process runtime network timeout) = Unit

-- The policy lists no runtime, or this one.
abbrev pub AllowsRuntime : SandboxPolicy → String → Type 0
AllowsRuntime policy r = (policy.allowed_runtimes ≡ []) ⊎ Memᴰ r policy.allowed_runtimes

has_runtime-Memᴰ : (l : List String) (r : String) → (has_runtime l r ≡ true) ↔ Memᴰ r l
unfolding has_runtime
has_runtime-Memᴰ [] r = (λ h. cc, λ m. elim m [ ])
has_runtime-Memᴰ (a ∷ l) r = elim (Bool-cases (a == r)) [
  | inl e ↦ ((λ h. Memᴰ.head (sym ((eq_iff a r).0 e))), (λ m. rw (has_runtime, e) refl))
  | inr e ↦ (
    (λ h. Memᴰ.tail ((has_runtime-Memᴰ l r).0 (rw (has_runtime, e) at h))),
    (λ m. rw (has_runtime, e) ((has_runtime-Memᴰ l r).1 (later e m))),
  )
]
  where
    later : {a r : String} {l : List String} → (a == r) ≡ false → Memᴰ r (a ∷ l) → Memᴰ r l
    later {a} {r} e (Memᴰ.head q) = absurd (true-false (sym ((eq_iff a r).1 (sym q)) ∙ e))
    later e (Memᴰ.tail m) = m

is_runtime_allowed_iff :
    (policy : SandboxPolicy) (r : String)
    → (is_runtime_allowed policy r ≡ true) ↔ AllowsRuntime policy r
unfolding is_runtime_allowed
is_runtime_allowed_iff policy r = by_list policy.allowed_runtimes refl
  where
    by_list :
        (l : List String)
        → policy.allowed_runtimes ≡ l
        → (is_runtime_allowed policy r ≡ true) ↔ AllowsRuntime policy r
    by_list [] q = ((λ h. inl q), (λ m. rw (is_runtime_allowed, q) refl))
    by_list (a ∷ l) q = (
      (λ h. inr (
          subst (Memᴰ r) (sym q)
            ((has_runtime-Memᴰ (a ∷ l) r).0 (rw (q, is_runtime_allowed) at h)))),
      (λ m. elim m [
        | inl e ↦ rw (is_runtime_allowed, e) refl
        | inr k ↦ rw (q, is_runtime_allowed) ((has_runtime-Memᴰ (a ∷ l) r).1 (subst (Memᴰ r) q k))
      ]),
    )

module _ (strings : Strings) where
  open strings use {to_lower, contains}

  -- No pattern of the list is in the text, which is in lower case.
  abbrev pub AreAbsent : String → List String → Type 0
  AreAbsent lower [] = Unit
  AreAbsent lower (p ∷ patterns) = (contains lower (to_lower p) ≡ false) × AreAbsent lower patterns

  first_banned_iff :
      (lower : String) (patterns : List String)
      → All (λ p. p ≢ "") patterns
      → (first_banned strings lower patterns ≡ "") ↔ AreAbsent lower patterns
  unfolding first_banned
  first_banned_iff lower [] h = ((λ e. tt), (λ a. refl))
  first_banned_iff lower (p ∷ patterns) (k, h) = elim (Bool-cases (contains lower (to_lower p))) [
    | inl e ↦
        ((λ q. absurd (k (rw (first_banned, e) at q))), (λ a. absurd (true-false (sym e ∙ a.0))))
    | inr e ↦ (
      (λ q. (e, (first_banned_iff lower patterns h).0 (rw (first_banned, e) at q))),
      (λ a. rw (first_banned, e) ((first_banned_iff lower patterns h).1 a.1)),
    )
  ]

-- Where no banned pattern is empty, `execute` passes a script on to executeInDocker or
-- executeInProcess exactly if the policy lists no runtime or the trigger's, bash where it names none,
-- and no banned pattern is in the script, both in lower case; otherwise it refuses it by itself.
pub launch_iff :
    (strings : Strings) (w : Manager) (trigger : Trigger) (script : String)
    → All (λ p. p ≢ "") w.policy.banned_commands
    → IsPassedOn (launch strings w trigger script) ↔ (
        AllowsRuntime w.policy (runtime_of strings trigger)
        × AreAbsent strings (strings.to_lower script) w.policy.banned_commands)
unfolding launch check_banned
launch_iff strings w trigger script h =
    let (runs_to, runs_from) = is_runtime_allowed_iff w.policy (runtime_of strings trigger) in
    let (to, from) =
      first_banned_iff strings (strings.to_lower script) w.policy.banned_commands h in
    elim (Bool-cases (is_runtime_allowed w.policy (runtime_of strings trigger))) [
      | inl r ↦
          elim (Bool-cases
            (first_banned strings (strings.to_lower script) w.policy.banned_commands == "")) [
              | inl b ↦ (
                (λ l. (runs_to r, to ((eq_iff _ "").0 b))),
                (λ m. elim (Bool-cases (w.image == "")) [
                  | inl i ↦ rw (launch, r, b, i) tt
                  | inr i ↦ rw (launch, r, b, i) tt
                ]),
              )
              | inr b ↦ (
                (λ l. absurd (rw (launch, r, b) at l)),
                (λ m. absurd (true-false (sym ((eq_iff _ "").1 (from m.1)) ∙ b))),
              )
            ]
      | inr r ↦ (
        (λ l. absurd (rw (launch, r) at l)),
        (λ m. absurd (true-false (sym (runs_from m.0) ∙ r))),
      )
    ]
