-- ===== src/Prelude/Positions.antt =====
-- Positions of a list: the element at one, a list with it replaced, and a list without it.
use Prim.Native.Nat.{ℕ, zero, suc}
use mathlib.Core.Option.{Option, none, some}
use mathlib.Core.List.{List, [], ◌∷◌}
use mathlib.Core.Path.{◌≡◌, subst}
use flowgent.Prelude.Lists.{All, All-map, some_inj}

module _ {ℓ} {A : Type ℓ} where
  unfoldable pub get_elem? : List A → ℕ → Option A
  get_elem? [] n = none
  get_elem? (x ∷ xs) zero = some x
  get_elem? (x ∷ xs) (suc n) = get_elem? xs n

  unfoldable pub set : List A → ℕ → A → List A
  set [] n a = []
  set (x ∷ xs) zero a = a ∷ xs
  set (x ∷ xs) (suc n) a = x ∷ set xs n a

  unfoldable pub erase_idx : List A → ℕ → List A
  erase_idx [] n = []
  erase_idx (x ∷ xs) zero = xs
  erase_idx (x ∷ xs) (suc n) = x ∷ erase_idx xs n

  module _ {κ} (P : A → Type κ) where
    pub All-get_elem? : (xs : List A) (n : ℕ) (x : A) → All P xs → get_elem? xs n ≡ some x → P x
    unfolding get_elem?
    All-get_elem? [] n x h e = cc
    All-get_elem? (y ∷ ys) zero x (h, hs) e = subst P (some_inj e) h
    All-get_elem? (y ∷ ys) (suc n) x (h, hs) e = All-get_elem? ys n x hs e

    pub All-erase_idx : (xs : List A) (n : ℕ) → All P xs → All P (erase_idx xs n)
    unfolding erase_idx
    All-erase_idx [] n h = h
    All-erase_idx (y ∷ ys) zero (h, hs) = hs
    All-erase_idx (y ∷ ys) (suc n) (h, hs) = (h, All-erase_idx ys n hs)

    pub All-set : (xs : List A) (n : ℕ) (a : A) → All P (erase_idx xs n) → P a → All P (set xs n a)
    unfolding erase_idx set
    All-set [] n a h p = h
    All-set (y ∷ ys) zero a hs p = (p, hs)
    All-set (y ∷ ys) (suc n) a (h, hs) p = (h, All-set ys n a hs p)

  -- Each element is R to all behind it.
  abbrev pub Pairwise {κ} : (A → A → Type κ) → List A → Type κ
  Pairwise R [] = Unit
  Pairwise R (x ∷ xs) = All (R x) xs × Pairwise R xs

  module _ {κ} (R : A → A → Type κ) where
    pub Pairwise-erase_idx : (xs : List A) (n : ℕ) → Pairwise R xs → Pairwise R (erase_idx xs n)
    unfolding erase_idx
    Pairwise-erase_idx [] n h = h
    Pairwise-erase_idx (y ∷ ys) zero (h, hs) = hs
    Pairwise-erase_idx (y ∷ ys) (suc n) (h, hs) =
        (All-erase_idx (R y) ys n h, Pairwise-erase_idx ys n hs)

    -- The others are R to an element, if R is symmetric.
    pub Pairwise-others :
        ((x y : A) → R x y → R y x)
        → (xs : List A) (n : ℕ) (x : A) → Pairwise R xs
        → get_elem? xs n ≡ some x
        → All (R x) (erase_idx xs n)
    unfolding get_elem? erase_idx
    Pairwise-others s [] n x h e = h
    Pairwise-others s (y ∷ ys) zero x (h, hs) e = subst (λ z. All (R z) ys) (some_inj e) h
    Pairwise-others s (y ∷ ys) (suc n) x (h, hs) e =
        (s y x (All-get_elem? (R y) ys n x h e), Pairwise-others s ys n x hs e)

    -- A replacement that stands as x stands to the others.
    pub Pairwise-set :
        (xs : List A) (n : ℕ) (x a : A)
        → ((y : A) → R x y → R a y)
        → ((y : A) → R y x → R y a)
        → Pairwise R xs
        → get_elem? xs n ≡ some x
        → Pairwise R (set xs n a)
    unfolding get_elem? set
    Pairwise-set [] n x a f g h e = h
    Pairwise-set (y ∷ ys) zero x a f g (h, hs) e =
        (All-map (R x) (R a) f ys (subst (λ z. All (R z) ys) (some_inj e) h), hs)
    Pairwise-set (y ∷ ys) (suc n) x a f g (h, hs) e = (
      All-set (R y) ys n a (All-erase_idx (R y) ys n h) (g y (All-get_elem? (R y) ys n x h e)),
      Pairwise-set ys n x a f g hs e,
    )

  pub Pairwise-map {κ μ} :
      (R : A → A → Type κ) (S : A → A → Type μ)
      → ((x y : A) → R x y → S x y)
      → (xs : List A) → Pairwise R xs
      → Pairwise S xs
  Pairwise-map R S f [] h = tt
  Pairwise-map R S f (x ∷ xs) (h, hs) = (All-map (R x) (S x) (f x) xs h, Pairwise-map R S f xs hs)
