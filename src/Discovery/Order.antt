-- ===== src/Discovery/Order.antt =====
-- Go's `<` on strings, which compares bytes; in UTF-8 that is the order by code points.
use Prim.Native.String.{[], ◌∷◌}
use Prim.Native.Char.{code}
use flowgent.Prelude.{String, Bool, true, false, ◌≡◌, refl, arith, eqb, ltb, ◌&&◌, ◌||◌}

unfoldable pub less : String → String → Bool
less s [] = false
less [] (d ∷ t) = true
less (c ∷ s) (d ∷ t) = ltb (code c) (code d) || (eqb (code c) (code d) && less s t)

pub less_irrefl : (s : String) → less s s ≡ false
unfolding less
less_irrefl [] = refl
less_irrefl (c ∷ s) = ground (arith, less_irrefl s)

pub less_trans : (s t u : String) → less s t ≡ true → less t u ≡ true → less s u ≡ true
unfolding less
less_trans s t [] h k = absurd (cc)
less_trans s [] (e ∷ u) h k = absurd (cc)
less_trans [] (d ∷ t) (e ∷ u) h k = refl
less_trans (c ∷ s) (d ∷ t) (e ∷ u) h k = ground (arith, less_trans s t u)

-- A string that is not below another and is below a third: the other is below it too, or equal.
pub not-less_trans : (s t u : String) → less s t ≡ false → less s u ≡ true → less t u ≡ true
unfolding less
not-less_trans s t [] h k = absurd (cc)
not-less_trans s [] (e ∷ u) h k = refl
not-less_trans [] (d ∷ t) (e ∷ u) h k = absurd (cc)
not-less_trans (c ∷ s) (d ∷ t) (e ∷ u) h k = ground (arith, not-less_trans s t u)
