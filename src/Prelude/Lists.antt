-- ===== src/Prelude/Lists.antt =====
-- List functions over the native numbers and Boolean tests, with the counting lemmas that bound
-- the loops of the program.
use Prim.Native.Nat.{ℕ, suc, ◌+◌, ◌≤◌, ◌<◌}
use mathlib.Core.Path.{◌≡◌, refl, sym, ap, subst}
use mathlib.Core.Bool.{Bool, true, false}
use mathlib.Core.Option.{Option, none, some}
use mathlib.Core.List.{List, [], ◌∷◌, ◌++◌, map, Memᴰ}
use mathlib.Core.List.Memᴰ
use mathlib.Core.Logic.{◌⊎◌, inl, inr}
use native.Mathlib.Omega.{arith}
use flowgent.Prelude.Tests.{if◌then◌else◌, Bool-cases}

abbrev pub is_some {ℓ} : {A : Type ℓ} → Option A → Bool
is_some none = false
is_some (some a) = true

abbrev pub is_empty {ℓ} : {A : Type ℓ} → List A → Bool
is_empty [] = true
is_empty (x ∷ xs) = false

pub some_inj {ℓ} : {A : Type ℓ} {a b : A} → some a ≡ some b → a ≡ b
some_inj h = cc

pub none-some {ℓ} : {A : Type ℓ} {a : A} → none ≡ some a → ⊥
none-some h = cc

pub Option-cases {ℓ} : {A : Type ℓ} (o : Option A) → (o ≡ none) ⊎ ((a : A) × (o ≡ some a))
Option-cases none = inl refl
Option-cases (some a) = inr (a, refl)

pub value_of_is_some {ℓ} : {A : Type ℓ} (o : Option A) → is_some o ≡ true → (a : A) × (o ≡ some a)
value_of_is_some none h = cc
value_of_is_some (some a) h = (a, refl)

module _ {ℓ} {A : Type ℓ} where
  abbrev pub length : List A → ℕ
  length [] = 0
  length (x ∷ xs) = suc (length xs)

  -- The elements that pass a Boolean test, in order.
  unfoldable pub select : (A → Bool) → List A → List A
  select p [] = []
  select p (x ∷ xs) = let rest = select p xs in if p x then x ∷ rest else rest

  -- How many elements fail a Boolean test.
  unfoldable pub misses : (A → Bool) → List A → ℕ
  misses p [] = 0
  misses p (x ∷ xs) = (if p x then 0 else 1) + misses p xs

  pub mem-select :
      (p : A → Bool) (xs : List A) (x : A) → Memᴰ x (select p xs) → Memᴰ x xs × (p x ≡ true)
  unfolding select
  mem-select p [] x m = absurd (Memᴰ.not-nil m)
  mem-select p (y ∷ ys) x m = elim (Bool-cases (p y)) [
    | inl e ↦ elim (Memᴰ.cases_cons (rw e at m)) [
      | inl q ↦ (Memᴰ.head q, subst (λ z. p z ≡ true) (sym q) e)
      | inr r ↦ let (i, t) = mem-select p ys x r in (Memᴰ.tail i, t)
    ]
    | inr e ↦ let (i, t) = mem-select p ys x (rw e at m) in (Memᴰ.tail i, t)
  ]

  pub select-mem :
      (p : A → Bool) {x : A} {xs : List A} → Memᴰ x xs → p x ≡ true → Memᴰ x (select p xs)
  unfolding select
  select-mem p (Memᴰ.head e) h = rw (subst (λ z. p z ≡ true) e h) (Memᴰ.head e)
  select-mem p (Memᴰ.tail {x = y} m) h = elim (Bool-cases (p y)) [
    | inl e ↦ rw e (Memᴰ.tail (select-mem p m h))
    | inr e ↦ rw e (select-mem p m h)
  ]

  pub misses-le-length : (p : A → Bool) (xs : List A) → misses p xs ≤ length xs
  unfolding misses
  misses-le-length p [] = omega arith
  misses-le-length p (x ∷ xs) = ground (arith, misses-le-length p xs)

  pub misses_mono :
      (p q : A → Bool)
      → ((x : A) → p x ≡ true → q x ≡ true)
      → (xs : List A) → misses q xs ≤ misses p xs
  unfolding misses
  misses_mono p q h [] = omega arith
  misses_mono p q h (x ∷ xs) = ground (arith, h x, misses_mono p q h xs)

  -- One more element passes, and none fewer.
  pub misses-lt :
      (p q : A → Bool)
      → ((x : A) → p x ≡ true → q x ≡ true)
      → {x : A} {xs : List A} → Memᴰ x xs
      → p x ≡ false
      → q x ≡ true
      → misses q xs < misses p xs
  unfolding misses
  misses-lt p q h (Memᴰ.head {xs = ys} e) f t =
      let f' = subst (λ z. p z ≡ false) e f in
      let t' = subst (λ z. q z ≡ true) e t in ground (arith, misses_mono p q h ys, f', t')
  misses-lt p q h (Memᴰ.tail {x = y} m) f t = ground (arith, h y, misses-lt p q h m f t)

pub length-map {ℓ κ} :
    {A : Type ℓ} {B : Type κ} (f : A → B) (xs : List A) → length (map f xs) ≡ length xs
length-map f [] = refl
length-map f (x ∷ xs) = ap suc (length-map f xs)

-- Every element satisfies the predicate.
abbrev pub All {ℓ κ} : {A : Type ℓ} → (A → Type κ) → List A → Type κ
All P [] = Unit
All P (x ∷ xs) = P x × All P xs

pub All-append {ℓ κ} :
    {A : Type ℓ} (P : A → Type κ) (xs ys : List A) → All P xs → All P ys → All P (xs ++ ys)
All-append P [] ys h k = k
All-append P (x ∷ xs) ys (h, hs) k = (h, All-append P xs ys hs k)

pub All-map {ℓ κ μ} :
    {A : Type ℓ} (P : A → Type κ) (Q : A → Type μ)
    → ((a : A) → P a → Q a)
    → (xs : List A) → All P xs
    → All Q xs
All-map P Q f [] h = tt
All-map P Q f (x ∷ xs) (h, hs) = (f x h, All-map P Q f xs hs)
