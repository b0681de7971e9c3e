-- ===== src/Committee/Laws.antt =====
-- What the strategies of committee.go decide.
use flowgent.Prelude.{
  ℕ, ◌+◌, ◌*◌, ◌≤◌, ◌<◌, String, true, false, List, [], ◌∷◌, ◌≡◌, refl, ◌↔◌, ◌⊎◌, ◌==◌, arith,
  Bool-cases, inl, inr, length, select, if◌then◌else◌,
}
use flowgent.Prelude.Dict.{get, get_or}
use flowgent.Value.{Value, as_list}
use flowgent.Dag.{ExecutionPlan}
use flowgent.Committee.{decision_type, is_approval, count_approvals, is_approved, execute}

-- The votes of a plan's input.
abbrev pub votes_of : ExecutionPlan → List Value
votes_of plan = get_or [] (as_list (get plan.input "votes"))

count-select :
    (votes : List Value) (n : ℕ) → count_approvals votes n ≡ n + length (select is_approval votes)
unfolding count_approvals select
count-select [] n = omega arith
count-select (v ∷ votes) n = elim (Bool-cases (is_approval v)) [
  | inl e ↦ rw e (omega (arith, count-select votes (n + 1)))
  | inr e ↦ rw e (omega (arith, count-select votes n))
]

length-select-le : (votes : List Value) → length (select is_approval votes) ≤ length votes
unfolding select
length-select-le [] = omega arith
length-select-le (v ∷ votes) = ground (arith, length-select-le votes)

-- What each strategy asks of `a` approvals in `t` votes.
abbrev pub Meets : String → ℕ → ℕ → Type 0
Meets strategy a t =
    if strategy == "majority"
    then (t < 2 * a)
    else if strategy == "unanimous"
    then (a ≡ t)
    else if strategy == "any"
    then (1 ≤ a)
    else if strategy == "majority_strict"
    then (2 * t < 3 * a + 3)
    else (t < 2 * a)

approved_iff :
    (strategy : String) (a t : ℕ) → (is_approved strategy a t ≡ true) ↔ Meets strategy a t
unfolding is_approved
approved_iff strategy a t = elim (Bool-cases (strategy == "majority")) [
  | inl e ↦ rw (e, is_approved) (λ h. ground arith, λ h. ground arith)
  | inr e ↦ elim (Bool-cases (strategy == "unanimous")) [
    | inl f ↦ rw (e, f, is_approved) (λ h. ground arith, λ h. ground arith)
    | inr f ↦ elim (Bool-cases (strategy == "any")) [
      | inl g ↦ rw (e, f, g, is_approved) (λ h. ground arith, λ h. ground arith)
      | inr g ↦ elim (Bool-cases (strategy == "majority_strict")) [
        | inl k ↦ rw (e, f, g, k, is_approved) (λ h. ground arith, λ h. ground arith)
        | inr k ↦ rw (e, f, g, k, is_approved) (λ h. ground arith, λ h. ground arith)
      ]
    ]
  ]
]

-- A committee node reports as approvals the votes whose decision is true, out of all votes, and
-- approves exactly when its strategy is met: unanimity if all votes approve, `any` if one does,
-- `majority_strict` if 2t < 3a + 3 for a approvals in t votes, and any other strategy if t < 2a.
pub execute-decides :
    (plan : ExecutionPlan)
    → let d = execute plan in
      (d.approve ≡ length (select is_approval (votes_of plan)))
      × (d.total ≡ length (votes_of plan))
      × (d.approve ≤ d.total)
      × ((d.decision ≡ true) ↔ Meets d.strategy d.approve d.total)
unfolding execute
execute-decides plan =
    let votes = votes_of plan in
    (
      omega (arith, count-select votes 0),
      refl,
      omega (arith, count-select votes 0, length-select-le votes),
      approved_iff (decision_type plan.node_spec.strategy) (count_approvals votes 0) (length votes),
    )

-- `majority_strict` approves where a plain majority does not in exactly four counts of a approvals in
-- t votes: 0 of 0, 0 of 1, 1 of 2 and 2 of 4.
pub strict-below-majority :
    (a t : ℕ)
    → ((is_approved "majority_strict" a t ≡ true) × (is_approved "majority" a t ≡ false))
      ↔ (((a ≡ 0) × (t ≡ 0)) ⊎ (((a ≡ 0) × (t ≡ 1)) ⊎ (((a ≡ 1) × (t ≡ 2)) ⊎ ((a ≡ 2) × (t ≡ 4)))))
unfolding is_approved
strict-below-majority a t = (λ h. grind arith, λ h. (ground arith, ground arith))
