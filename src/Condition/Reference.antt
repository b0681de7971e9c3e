-- ===== src/Condition/Reference.antt =====
-- What `EvalCondition` of eval.go makes of one reference.
use Prim.Native.Char.{Char, code}
use Prim.Native.String.{[], ◌∷◌, ◌++◌}
use text.Mathlib.TextLemmas.{nil-append, cons-append, append_assoc}
use flowgent.Prelude.{
  String, Bool, true, false, some, ◌≡◌, refl, sym, ◌∙◌, ap, subst, ◌==◌, ◌||◌, inl, inr, eqb,
  eq_iff, arith, Bool-cases, leb, ◌≤◌, ◌&&◌,
}
use flowgent.Prelude.Dict.{get}
use flowgent.Prelude.Text.{cut_prefix}
use flowgent.Value.{Value, Object}
use flowgent.Template.{Scope, Format, contains_space, whole_ref}
use flowgent.Template.Lookup.{is_plain, reference, drop_close-plain, resolve-reference}
use flowgent.Agent.Extract.{trim_left, trim_right}
use flowgent.Condition.{Texts, trim, eval_condition, eval_forms, eval_inner, inner_split, find}

-- The text begins with a dollar sign.
abbrev starts_reference : String → Bool
starts_reference [] = false
starts_reference (c ∷ s) = eqb (code c) b'$'

starts-reference : (s : String) → starts_reference ("${" ++ s) ≡ true
starts-reference s = rw (cons-append) refl

not_literal :
    (s t : String) → starts_reference s ≡ true → starts_reference t ≡ false → (s == t) ≡ false
not_literal s t h k = elim (Bool-cases (s == t)) [
  | inl e ↦
      absurd
        (true-false (sym h ∙ subst (λ z. starts_reference z ≡ false) (sym ((eq_iff s t).0 e)) k))
  | inr e ↦ e
]
  where
    true-false : true ≡ false → ⊥
    true-false q = cc

pub reference-nonempty : (n f : String) → (reference n f == "") ≡ false
reference-nonempty n f =
    not_literal (reference n f) "" (starts-reference ((n ++ ("." ++ f)) ++ "}")) refl

space-append : (s t : String) → contains_space (s ++ t) ≡ contains_space s || contains_space t
unfolding contains_space
space-append [] t = rw (nil-append t) refl
space-append (c ∷ s) t = rw (cons-append c s t) (ground (arith, space-append s t))

plain-no_space : (s : String) → is_plain s ≡ true → contains_space s ≡ false
unfolding contains_space
plain-no_space [] h = refl
plain-no_space (c ∷ s) h = ground (arith, plain-no_space s (ground arith))

reference-no_space :
    (n f : String) → is_plain n ≡ true → is_plain f ≡ true → contains_space (reference n f) ≡ false
unfolding contains_space
reference-no_space n f hn hf = ground (
  arith,
  space-append "${" ((n ++ ("." ++ f)) ++ "}"),
  space-append (n ++ ("." ++ f)) "}",
  space-append n ("." ++ f),
  space-append "." f,
  plain-no_space n hn,
  plain-no_space f hf,
)

whole-reference : (s : String) → whole_ref ("${" ++ (s ++ "}")) ≡ some s
unfolding whole_ref
whole-reference s =
    rw (cons-append) (rw (cons-append) (rw (nil-append (s ++ "}")) (drop_close-plain s)))

cut-reference : (s : String) → cut_prefix ("${" ++ s) "${" ≡ some s
unfolding cut_prefix
cut-reference s = rw (cons-append) (rw (cons-append) (rw (nil-append s) refl))

-- Printable characters of ASCII but for the space itself are no spaces.
abbrev pub IsTight : (Char → Bool) → Type 0
IsTight is_space = (c : Char) → 33 ≤ code c → code c ≤ 126 → is_space c ≡ false

-- All characters are such.
abbrev is_printed : String → Bool
is_printed [] = true
is_printed (c ∷ s) = leb 33 (code c) && leb (code c) 126 && is_printed s

module _ (is_space : Char → Bool) (tight : IsTight is_space) where
  trim_right-closed : (s : String) → trim_right is_space (s ++ "}") ≡ s ++ "}"
  unfolding trim_right
  trim_right-closed [] = rw (nil-append "}") (rw (tight "}" (omega arith) (omega arith)) refl)
  trim_right-closed (c ∷ []) =
      rw (cons-append c "" "}") (rw (tight "}" (omega arith) (omega arith), trim_right) refl)
  trim_right-closed (c ∷ d ∷ s) =
      let ih = trim_right-closed (d ∷ s) in
      rw (cons-append c (d ∷ s) "}")
        (rw (cons-append d s "}") (rw (rw (cons-append d s "}") at ih, trim_right) refl))

  trim_left-opened : (s : String) → trim_left is_space ("${" ++ s) ≡ "${" ++ s
  unfolding trim_left
  trim_left-opened s = rw (cons-append) (rw (tight "$" (omega arith) (omega arith)) refl)

  trim_right-printed : (s : String) → is_printed s ≡ true → trim_right is_space s ≡ s
  unfolding trim_right
  trim_right-printed [] h = refl
  trim_right-printed (c ∷ []) h =
      rw (trim_right, tight c (ground (arith, h)) (ground (arith, h))) refl
  trim_right-printed (c ∷ d ∷ s) h =
      rw (trim_right-printed (d ∷ s) (ground (arith, h)), trim_right) refl

  trim_left-printed : (s : String) → is_printed s ≡ true → trim_left is_space s ≡ s
  unfolding trim_left
  trim_left-printed [] h = refl
  trim_left-printed (c ∷ s) h = rw (tight c (ground (arith, h)) (ground (arith, h)), trim_left) refl

-- A condition that is one reference to a field that the scope has holds exactly if the value's text is
-- true.
pub eval_condition-reference :
    (fmt : Format) (texts : Texts) (scope : Scope) (a : Char) (n f : String) (node : Object)
    (v : Value)
    → IsTight texts.is_space
    → is_plain (a ∷ n) ≡ true
    → is_plain f ≡ true
    → get scope (a ∷ n) ≡ some node
    → get node f ≡ some v
    → eval_condition fmt texts scope (reference (a ∷ n) f) ≡ (fmt.sprint v == "true")
unfolding eval_condition eval_forms
eval_condition-reference fmt texts scope a n f node v tight hn hf at_node at_field =
    let path : String = (a ∷ n) ++ ("." ++ f) in
    let starts = starts-reference (path ++ "}") in
    let trimmed : trim fmt texts (reference (a ∷ n) f) ≡ reference (a ∷ n) f =
      rw (trim_left-opened texts.is_space tight (path ++ "}")) (
        subst (λ z. trim_right texts.is_space z ≡ z) (append_assoc "${" path "}")
          (trim_right-closed texts.is_space tight ("${" ++ path))) in
    rw trimmed (
      rw
        (
          not_literal (reference (a ∷ n) f) "" starts refl,
          not_literal (reference (a ∷ n) f) "true" starts refl,
          not_literal (reference (a ∷ n) f) "false" starts refl,
        )
        (rw
          (
            eval_forms,
            cut-reference (path ++ "}"),
            reference-no_space (a ∷ n) f hn hf,
            whole-reference path,
          )
          (ap (λ z. z == "true")
            (resolve-reference fmt scope a n f node v hn hf at_node at_field))))

-- The expression of a node that has none: it holds exactly if the text of the result is true.
pub eval_condition-default :
    (fmt : Format) (texts : Texts) (scope : Scope) (node : Object) (v : Value)
    → IsTight texts.is_space
    → get scope "input" ≡ some node
    → get node "result" ≡ some v
    → eval_condition fmt texts scope "${input.result == true}" ≡ (fmt.sprint v == "true")
unfolding eval_condition eval_forms eval_inner inner_split find cut_prefix contains_space
eval_condition-default fmt texts scope node v tight at_node at_field =
    let trimmed : trim fmt texts "${input.result == true}" ≡ "${input.result == true}" =
      rw (trim_left-opened texts.is_space tight "input.result == true}")
        (trim_right-closed texts.is_space tight "${input.result == true") in
    let path : trim fmt texts "input.result" ≡ "input.result" =
      rw (trim_left-printed texts.is_space tight "input.result" refl)
        (trim_right-printed texts.is_space tight "input.result" refl) in
    let rhs : trim fmt texts "true" ≡ "true" =
      rw (trim_left-printed texts.is_space tight "true" refl)
        (trim_right-printed texts.is_space tight "true" refl) in
    let opened : whole_ref "${input.result == true}" ≡ some "input.result == true" =
      whole-reference "input.result == true" in
    rw trimmed (
      rw (eval_forms, opened)
        (rw (path, rhs)
          (ap (λ z. z == "true")
            (resolve-reference fmt scope "i" "nput" "result" node v refl refl at_node at_field))))
