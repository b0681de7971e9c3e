-- ===== src/Prelude/Text.antt =====
-- Functions of Go's `strings` package that several files use.
use Prim.Native.String.{String, [], ◌∷◌, ◌++◌}
use Prim.Native.Char.{code}
use mathlib.Core.Path.{◌≡◌, refl, sym, ap, ◌∙◌}
use Prim.Native.Char.{Char}
use text.Mathlib.TextEquality.{Char-path}
use text.Mathlib.TextLemmas.{nil-append}
use mathlib.Core.Bool.{true}
use native.Mathlib.Omega.{arith}
use flowgent.Prelude.Lists.{some_inj, none-some}
use mathlib.Core.Logic.{◌≢◌, inl, inr}
use mathlib.Core.Bool.{false}
use text.Mathlib.Text.{◌==◌}
use text.Mathlib.TextEquality.{eq_iff}
use text.Mathlib.TextLemmas.{cons-append}
use mathlib.Core.Option.{Option, none, some}
use flowgent.Prelude.Tests.{eqb, if◌then◌else◌, Bool-cases}

-- strings.CutPrefix
unfoldable pub cut_prefix : String → String → Option String
cut_prefix s [] = some s
cut_prefix [] (p ∷ pre) = none
cut_prefix (c ∷ s) (p ∷ pre) = if eqb (code c) (code p) then cut_prefix s pre else none

pub eq-false : (s t : String) → s ≢ t → (s == t) ≡ false
eq-false s t k = elim (Bool-cases (s == t)) [ inl e ↦ absurd (k ((eq_iff s t).0 e)) | inr e ↦ e ]

pub append-nonempty : (s t : String) → s ≢ "" → (s ++ t) ≢ ""
append-nonempty [] t k e = k refl
append-nonempty (c ∷ s) t k e = cc (cons-append c s t)

pub cut_prefix-append : (s p r : String) → cut_prefix s p ≡ some r → s ≡ p ++ r
unfolding cut_prefix
cut_prefix-append s [] r h = some_inj h ∙ sym (nil-append r)
cut_prefix-append [] (d ∷ p) r h = cc
cut_prefix-append (c ∷ s) (d ∷ p) r h = elim (Bool-cases (eqb (code c) (code d))) [
  | inl e ↦
      let same : c ≡ d = Char-path c d (ground (arith, e)) in
      let rest : s ≡ p ++ r = cut_prefix-append s p r (rw (cut_prefix, e) at h) in
      ap (λ t. c ∷ t) rest ∙ ap (λ z. z ∷ (p ++ r)) same ∙ sym (cons-append d p r)
  | inr e ↦ absurd (none-some (rw (cut_prefix, e) at h))
]

pub cut_prefix-same : (p s : String) → cut_prefix (p ++ s) p ≡ some s
unfolding cut_prefix
cut_prefix-same [] s = ap some (nil-append s)
cut_prefix-same (c ∷ p) s = rw (cons-append c p s) (rw (code_refl c) (cut_prefix-same p s))
  where
    code_refl : (c : Char) → eqb (code c) (code c) ≡ true
    code_refl c = ground arith
