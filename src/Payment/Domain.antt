-- ===== src/Payment/Domain.antt =====
-- `extractDomain`, `matchDomain` and `containsFold` of core/pkg/client/policy/policy.go, with what
-- they ask of the `strings` package.
use Prim.Native.String.{[], ◌∷◌, ◌++◌}
use Prim.Native.Char.{code}
use flowgent.Prelude.{
  ℕ, String, Bool, true, false, none, some, List, ◌==◌, ◌||◌, eqb, if◌then◌else◌,
}
use flowgent.Prelude.Text.{cut_prefix}
use mathlib.Core.List as L

-- strings.HasSuffix
unfoldable pub has_suffix : String → String → Bool
has_suffix [] t = t == ""
has_suffix (c ∷ s) t = t == (c ∷ s) || has_suffix s t

-- s[:strings.Index(s, c)], and s where `c` does not occur.
unfoldable pub before : ℕ → String → String
before k [] = ""
before k (c ∷ s) = let rest = before k s in if eqb (code c) k then "" else c ∷ rest

-- containsFold, where `equal_fold` is strings.EqualFold.
unfoldable pub contains_fold : (String → String → Bool) → List String → String → Bool
contains_fold equal_fold L.[] target = false
contains_fold equal_fold (L.◌∷◌ item items) target =
    equal_fold item target || contains_fold equal_fold items target

-- extractDomain
unfoldable pub extract_domain : String → String
unfolding cut_prefix before
extract_domain url =
    let s : String = elim (cut_prefix url "https://") [
      | some after ↦ after
      | none ↦ elim (cut_prefix url "http://") [ some after ↦ after | none ↦ url ]
    ] in
    before b':' (before b'/' s)

-- matchDomain
unfoldable pub match_domain : String → String → Bool
unfolding cut_prefix has_suffix
match_domain pattern domain = if pattern == domain then true else elim (cut_prefix pattern "*.") [
  | none ↦ false
  | some base ↦ has_suffix domain ("." ++ base) || domain == base
]

unfoldable pub match_any : List String → String → Bool
unfolding match_domain
match_any L.[] domain = false
match_any (L.◌∷◌ p ps) domain = match_domain p domain || match_any ps domain
