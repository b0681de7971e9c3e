-- ===== src/Sandbox/Confined.antt =====
-- The folder of a script (sandbox.go) stays below the workspace, and the wait for its result ends.
use Prim.Native.Char.{code}
use Prim.Native.String.{[], ◌∷◌}
use flowgent.Prelude.{
  ℕ, zero, suc, ◌<◌, String, Bool, true, false, ◌==◌, ◌&&◌, ◌||◌, ◌≡◌, ◌≢◌, ◌⊎◌, inl, inr, refl,
  sym, ◌∙◌, eqb, arith, is_some, eq_iff, Bool-cases, Option-cases, true-false,
}
use flowgent.Dag.{TaskResult}
use flowgent.Sandbox.Executor.{
  replace_code, replace_dots, sanitize_trimmed, sanitize, Host, Event, message, polled, expired,
  wait_result,
}

-- Has a text a character of this code?
unfoldable pub has_code : ℕ → String → Bool
has_code n [] = false
has_code n (c ∷ s) = eqb (code c) n || has_code n s

-- Has a text two dots in a row, where the flag says that a dot is in front of it?
unfoldable pub has_dots : Bool → String → Bool
has_dots before [] = false
has_dots before (c ∷ s) = (before && eqb (code c) b'.') || has_dots (eqb (code c) b'.') s

replace_code-gone :
    (n : ℕ) (s : String) → eqb b'_' n ≡ false → has_code n (replace_code n s) ≡ false
unfolding replace_code has_code
replace_code-gone n [] h = refl
replace_code-gone n (c ∷ s) h = elim (Bool-cases (eqb (code c) n)) [
  | inl e ↦ rw (replace_code, e) (ground (arith, h, replace_code-gone n s h))
  | inr e ↦ rw (replace_code, e) (ground (arith, e, replace_code-gone n s h))
]

replace_code-keeps :
    (m n : ℕ) (s : String)
    → eqb b'_' m ≡ false
    → has_code m s ≡ false
    → has_code m (replace_code n s) ≡ false
unfolding replace_code has_code
replace_code-keeps m n [] h k = refl
replace_code-keeps m n (c ∷ s) h k =
    let rest = replace_code-keeps m n s h (ground (arith, k)) in
    elim (Bool-cases (eqb (code c) n)) [
      | inl e ↦ rw (replace_code, e) (ground (arith, h, rest))
      | inr e ↦ rw (replace_code, e) (ground (arith, k, rest))
    ]

replace_dots-keeps :
    (m : ℕ) (pending : Bool) (s : String)
    → eqb b'_' m ≡ false
    → eqb b'.' m ≡ false
    → has_code m s ≡ false
    → has_code m (replace_dots pending s) ≡ false
unfolding replace_dots has_code
replace_dots-keeps m false [] h d k = refl
replace_dots-keeps m true [] h d k = ground (arith, d)
replace_dots-keeps m false (c ∷ s) h d k = elim (Bool-cases (eqb (code c) b'.')) [
  | inl e ↦ rw (replace_dots, e) (replace_dots-keeps m true s h d (ground (arith, k)))
  | inr e ↦
      rw (replace_dots, e) (ground (arith, k, replace_dots-keeps m false s h d (ground (arith, k))))
]
replace_dots-keeps m true (c ∷ s) h d k =
    let rest = replace_dots-keeps m false s h d (ground (arith, k)) in
    elim (Bool-cases (eqb (code c) b'.')) [
      | inl e ↦ rw (replace_dots, e) (ground (arith, h, rest))
      | inr e ↦ rw (replace_dots, e) (ground (arith, k, d, rest))
    ]

replace_dots-gone : (pending : Bool) (s : String) → has_dots false (replace_dots pending s) ≡ false
unfolding replace_dots has_dots
replace_dots-gone false [] = refl
replace_dots-gone true [] = refl
replace_dots-gone false (c ∷ s) = elim (Bool-cases (eqb (code c) b'.')) [
  | inl e ↦ rw (replace_dots, e) (replace_dots-gone true s)
  | inr e ↦ rw (replace_dots, e) (rw (has_dots, e) (replace_dots-gone false s))
]
replace_dots-gone true (c ∷ s) = elim (Bool-cases (eqb (code c) b'.')) [
  | inl e ↦ rw (replace_dots, e) (replace_dots-gone false s)
  | inr e ↦ rw (replace_dots, e) (rw (has_dots, e) (replace_dots-gone false s))
]

replace_code-nonempty : (n : ℕ) (s : String) → s ≢ "" → replace_code n s ≢ ""
unfolding replace_code
replace_code-nonempty n [] h e = h refl
replace_code-nonempty n (c ∷ s) h e = cc

replace_dots-nonempty : (s : String) → s ≢ "" → replace_dots false s ≢ ""
unfolding replace_dots
replace_dots-nonempty [] h e = h refl
replace_dots-nonempty (c ∷ s) h e = elim (Bool-cases (eqb (code c) b'.')) [
  | inl q ↦ pending s (rw (replace_dots, q) at e)
  | inr q ↦ cons c _ (rw (replace_dots, q) at e)
]
  where
    cons : (d : _) (t : String) → ◌≡◌ {A = String} (d ∷ t) "" → ⊥
    cons d t e = cc

    pending : (t : String) → replace_dots true t ≡ "" → ⊥
    pending [] e = cc
    pending (d ∷ t) e = elim (Bool-cases (eqb (code d) b'.')) [
      | inl q ↦ cons "_" _ (rw (replace_dots, q) at e)
      | inr q ↦ cons "." _ (rw (replace_dots, q) at e)
    ]

-- A name of one folder or file: it has a character, no slash, no backslash and no two dots in a row.
pub record IsComponent (s : String) : Type 0 where
  pub filled : s ≢ ""
  pub no_slash : has_code b'/' s ≡ false
  pub no_backslash : has_code b'\\' s ≡ false
  pub no_dots : has_dots false s ≡ false

default-filled : ◌≡◌ {A = String} "default" "" → ⊥
default-filled e = true-false (sym ((eq_iff "default" "").1 e))

-- Whatever a plan's namespace, flow, run or identifier is, and whatever trimming leaves of it, sanitize
-- makes it one component of a path: it has a character, no slash, no backslash and no two dots in a row,
-- so that it leads out of no folder.
pub sanitize-IsComponent : {S : Type 0} (host : Host S) (s : String) → IsComponent (sanitize host s)
unfolding sanitize sanitize_trimmed has_code has_dots
sanitize-IsComponent host s =
    let t = host.trim_space s in
    elim (Bool-cases (t == "")) [
      | inl e ↦
          rw (sanitize_trimmed, e)
            (record {
              filled = default-filled;
              no_slash = refl;
              no_backslash = refl;
              no_dots = refl;
            })
      | inr e ↦
          let filled : t ≢ "" = λ q. true-false (sym ((eq_iff t "").1 q) ∙ e) in
          let slashed = replace_code b'/' t in
          rw (sanitize_trimmed, e)
            (record {
              filled =
                  replace_dots-nonempty (replace_code b'\\' slashed)
                    (replace_code-nonempty b'\\' slashed (replace_code-nonempty b'/' t filled));
              no_slash =
                  replace_dots-keeps b'/' false (replace_code b'\\' slashed) refl refl
                    (replace_code-keeps b'/' b'\\' slashed refl (replace_code-gone b'/' t refl));
              no_backslash =
                  replace_dots-keeps b'\\' false (replace_code b'\\' slashed) refl refl
                    (replace_code-gone b'\\' slashed refl);
              no_dots = replace_dots-gone false (replace_code b'\\' slashed);
            })
    ]

-- The ticker and the timeout of the wait: fewer than `fuel` ticks come before the context ends.
pub record Expires {S : Type 0} (host : Host S) (fuel : ℕ) : Type 0 where
  pub left : S → ℕ
  pub started : (s : S) → left (host.start_wait s) < fuel
  pub ticked : (s : S) → (host.next s).1 ≡ polled → left (host.next s).0 < left s

Event-cases : (e : Event) → ((r : TaskResult) × (e ≡ message r)) ⊎ ((e ≡ polled) ⊎ (e ≡ expired))
Event-cases (message r) = inl (r, refl)
Event-cases polled = inr (inl refl)
Event-cases expired = inr (inr refl)

-- With as much fuel as the wait has ticks left, it gives a result.
pub wait_result-returns :
    {S : Type 0} (host : Host S) {full : ℕ} (expires : Expires host full) (fuel : ℕ) (path : String)
    (s : S)
    → expires.left s < fuel
    → is_some (wait_result host fuel path s) ≡ true
unfolding wait_result
wait_result-returns host expires zero path s h = absurd (omega arith)
wait_result-returns host expires (suc fuel) path s h = elim (Event-cases (host.next s).1) [
  | inl (r, q) ↦ rw (wait_result, q) refl
  | inr (inr q) ↦ rw (wait_result, q) refl
  | inr (inl q) ↦ elim (Option-cases (host.read_result path (host.next s).0)) [
    | inr (r, e) ↦ rw (wait_result, q, e) refl
    | inl e ↦
        let later = expires.ticked s q in
        rw (wait_result, q, e)
          (wait_result-returns host expires fuel path (host.next s).0 (omega arith))
  ]
]
