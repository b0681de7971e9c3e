-- ===== src/Prelude/Dict.antt =====
-- Go's maps with string keys, as association lists: a write replaces the entry of its key or
-- appends one. Go iterates over a map in an unspecified order; where the program does, its
-- functions here say what they make of the order.
use Prim.Native.String.{String}
use mathlib.Core.Path.{◌≡◌, refl, sym, ap, subst, ◌∙◌}
use mathlib.Core.Bool.{Bool, false}
use mathlib.Core.Option.{Option, none, some}
use mathlib.Core.List.{List, [], ◌∷◌, Memᴰ}
use mathlib.Core.List.Memᴰ
use mathlib.Core.Logic.{inl, inr}
use flowgent.Prelude.Lists.{some_inj, none-some}
use native.Mathlib.Omega.{arith}
use text.Mathlib.Text.{◌==◌}
use text.Mathlib.TextEquality.{eq_iff}
use flowgent.Prelude.Tests.{if◌then◌else◌, Bool-cases}

abbrev pub Dict {ℓ} : Type ℓ → Type ℓ
Dict V = List (String × V)

module _ {ℓ} {V : Type ℓ} where
  -- v, ok := d[k]
  unfoldable pub get : Dict V → String → Option V
  get [] k = none
  get ((j, v) ∷ d) k = if j == k then some v else get d k

  -- d[k] = v
  unfoldable pub put : Dict V → String → V → Dict V
  put [] k v = (k, v) ∷ []
  put ((j, w) ∷ d) k v = if j == k then (k, v) ∷ d else (j, w) ∷ put d k v

  -- delete(d, k)
  unfoldable pub remove : Dict V → String → Dict V
  remove [] k = []
  remove ((j, v) ∷ d) k = let rest = remove d k in if j == k then rest else (j, v) ∷ rest

  pub get-put :
      (d : Dict V) (k : String) (v : V) (j : String)
      → get (put d k v) j ≡ (if k == j then some v else get d j)
  unfolding get put
  get-put [] k v j = refl
  get-put ((i, w) ∷ d) k v j = ground (arith, eq_iff k j, eq_iff i k, eq_iff i j, get-put d k v j)

  pub get-remove :
      (m : Dict V) (gone j : String) → get (remove m gone) j ≡ (if gone == j then none else get m j)
  unfolding get remove
  get-remove [] gone j = ground arith
  get-remove ((i, v) ∷ m) gone j =
      ground (arith, eq_iff i gone, eq_iff i j, eq_iff gone j, get-remove m gone j)

module _ {ℓ} {V : Type ℓ} where
  -- No key stands twice.
  abbrev pub AreDistinct : Dict V → Type ℓ
  AreDistinct [] = Unit
  AreDistinct ((k, v) ∷ d) = (get d k ≡ none) × AreDistinct d

  pub put-AreDistinct : (d : Dict V) (k : String) (v : V) → AreDistinct d → AreDistinct (put d k v)
  unfolding put get
  put-AreDistinct [] k v h = (refl, record {})
  put-AreDistinct ((j, w) ∷ d) k v (h, hs) = elim (Bool-cases (j == k)) [
    | inl e ↦ rw (e, put) (subst (λ z. get d z ≡ none) ((eq_iff j k).0 e) h, hs)
    | inr e ↦
        rw (e, put)
          (ground (arith, get-put d k v j, eq_iff j k, eq_iff k j), put-AreDistinct d k v hs)
  ]

  pub mem-get : (d : Dict V) (k : String) (v : V) → AreDistinct d → Memᴰ (k, v) d → get d k ≡ some v
  unfolding get
  mem-get [] k v h m = absurd (Memᴰ.not-nil m)
  mem-get ((j, w) ∷ d) k v (h, hs) (Memᴰ.head q) =
      rw ((eq_iff j k).1 (sym (ap (λ (p : String × V). p.0) q)))
        (ap some (sym (ap (λ (p : String × V). p.1) q)))
  mem-get ((j, w) ∷ d) k v (h, hs) (Memᴰ.tail m) = elim (Bool-cases (j == k)) [
    | inl e ↦ absurd (
        none-some
          (sym h ∙ subst (λ z. get d z ≡ some v) (sym ((eq_iff j k).0 e)) (mem-get d k v hs m)))
    | inr e ↦ rw e (mem-get d k v hs m)
  ]

  pub get-mem : (d : Dict V) (k : String) (v : V) → get d k ≡ some v → Memᴰ (k, v) d
  unfolding get
  get-mem [] k v h = absurd (none-some h)
  get-mem ((j, w) ∷ d) k v h = elim (Bool-cases (j == k)) [
    | inl e ↦ Memᴰ.head (rw ((eq_iff j k).0 e, some_inj (rw e at h)) refl)
    | inr e ↦ Memᴰ.tail (get-mem d k v (rw e at h))
  ]

-- d[k] where a missing key reads as the zero value.
abbrev pub get_or {ℓ} : {V : Type ℓ} → V → Option V → V
get_or z none = z
get_or z (some v) = v

-- d[k] of a map[string]bool.
unfoldable pub flag : Dict Bool → String → Bool
flag d k = get_or false (get d k)

pub flag-put :
    (d : Dict Bool) (k : String) (v : Bool) (j : String)
    → flag (put d k v) j ≡ (if k == j then v else flag d j)
unfolding flag
flag-put d k v j = ground (arith, get-put d k v j)
