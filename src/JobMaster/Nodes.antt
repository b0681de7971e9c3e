-- ===== src/JobMaster/Nodes.antt =====
-- What `IsComplete` and `HasFailed` of jobmaster.go say of the single nodes.
use mathlib.Core.List.Memᴰ
use flowgent.Prelude.{
  String, Bool, true, false, List, [], ◌∷◌, ◌≡◌, refl, subst, sym, Memᴰ, arith, Bool-cases, inl,
  inr,
}
use flowgent.Prelude.Dict.{flag}
use flowgent.JobMaster.Graph.{
  JobMaster, is_settled, is_satisfied, all_of, any_of, is_complete, has_failed,
}

module _ (p : String → Bool) where
  all_of-mem : (xs : List String) (x : String) → all_of p xs ≡ true → Memᴰ x xs → p x ≡ true
  all_of-mem (y ∷ xs) x h (Memᴰ.head e) = subst (λ z. p z ≡ true) (sym e) (ground arith)
  all_of-mem (y ∷ xs) x h (Memᴰ.tail m) = all_of-mem xs x (ground arith) m
  all_of-mem [] x h m = absurd (Memᴰ.not-nil m)

  all_of_mem : (xs : List String) → ((x : String) → Memᴰ x xs → p x ≡ true) → all_of p xs ≡ true
  all_of_mem [] h = refl
  all_of_mem (y ∷ xs) h =
      ground (arith, h y (Memᴰ.head refl), all_of_mem xs (λ x m. h x (Memᴰ.tail m)))

  all_of-false : (xs : List String) → all_of p xs ≡ false → (x : String) × Memᴰ x xs × (p x ≡ false)
  all_of-false [] h = cc
  all_of-false (y ∷ xs) h = elim (Bool-cases (p y)) [
    | inl t ↦ let (x, m, f) = all_of-false xs (ground arith) in (x, Memᴰ.tail m, f)
    | inr f ↦ (y, Memᴰ.head refl, f)
  ]

  any_of-true : (xs : List String) → any_of p xs ≡ true → (x : String) × Memᴰ x xs × (p x ≡ true)
  any_of-true [] h = cc
  any_of-true (y ∷ xs) h = elim (Bool-cases (p y)) [
    | inl t ↦ (y, Memᴰ.head refl, t)
    | inr f ↦ let (x, m, t) = any_of-true xs (ground arith) in (x, Memᴰ.tail m, t)
  ]

  any_of-false : (xs : List String) (x : String) → any_of p xs ≡ false → Memᴰ x xs → p x ≡ false
  any_of-false (y ∷ xs) x h (Memᴰ.head e) = subst (λ z. p z ≡ false) (sym e) (ground arith)
  any_of-false (y ∷ xs) x h (Memᴰ.tail m) = any_of-false xs x (ground arith) m
  any_of-false [] x h m = absurd (Memᴰ.not-nil m)

module _ (jm : JobMaster) where
  pub incomplete-node :
      is_complete jm ≡ false → (n : String) × Memᴰ n jm.nodes × (is_settled jm n ≡ false)
  unfolding is_complete
  incomplete-node h = all_of-false (is_settled jm) jm.nodes h

  pub complete_of_nodes :
      ((n : String) → Memᴰ n jm.nodes → is_settled jm n ≡ true) → is_complete jm ≡ true
  unfolding is_complete
  complete_of_nodes h = all_of_mem (is_settled jm) jm.nodes h

  pub failed-node :
      has_failed jm ≡ true → (n : String) × Memᴰ n jm.nodes × (flag jm.failed n ≡ true)
  unfolding has_failed
  failed-node h = any_of-true (flag jm.failed) jm.nodes h

  pub unfailed-node :
      has_failed jm ≡ false → (n : String) → Memᴰ n jm.nodes → flag jm.failed n ≡ false
  unfolding has_failed
  unfailed-node h n m = any_of-false (flag jm.failed) jm.nodes n h m

  -- In a run without a failure, a settled node is completed or skipped.
  pub satisfied_of_settled :
      (n : String) → flag jm.failed n ≡ false → is_settled jm n ≡ true → is_satisfied jm n ≡ true
  unfolding is_settled is_satisfied
  satisfied_of_settled n f h = ground arith

  pub complete-node :
      has_failed jm ≡ false
      → is_complete jm ≡ true
      → (n : String) → Memᴰ n jm.nodes
      → is_satisfied jm n ≡ true
  unfolding is_complete
  complete-node f h n m =
      satisfied_of_settled n (unfailed-node f n m) (all_of-mem (is_settled jm) jm.nodes n h m)
