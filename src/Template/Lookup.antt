-- ===== src/Template/Lookup.antt =====
-- What `Resolve` of common/pkg/utils/eval.go makes of one reference `${node.field}`.
use Prim.Native.String.{[], ◌∷◌, ◌++◌}
use Prim.Native.Char.{Char, code}
use text.Mathlib.TextLemmas.{nil-append, cons-append, append-nil, append_assoc}
use flowgent.Prelude.{
  String, Bool, true, false, not, Option, some, ◌≡◌, refl, sym, ap, ◌∙◌, ◌&&◌, eqb, arith,
}
use flowgent.Prelude.Dict.{get}
use flowgent.Value.{Value, Object}
use flowgent.Template.{Scope, Format, expand, resolve}
use flowgent.Template.Scan.{outside, inside, scan, replace, contains_ref, split_dot, drop_close}

-- No closing brace; and none of the characters that a reference is made of, and no space.
abbrev pub is_open_text : String → Bool
is_open_text [] = true
is_open_text (c ∷ s) = not (eqb (code c) b'}') && is_open_text s

abbrev pub is_plain : String → Bool
is_plain [] = true
is_plain (c ∷ s) =
    (not (eqb (code c) b'.') && (not (eqb (code c) b'}') && not (eqb (code c) b' '))) && is_plain s

pub open_of_plain : (s : String) → is_plain s ≡ true → is_open_text s ≡ true
open_of_plain [] h = refl
open_of_plain (c ∷ s) h = ground (arith, open_of_plain s (ground arith))

open-append :
    (s t : String) → is_open_text s ≡ true → is_open_text t ≡ true → is_open_text (s ++ t) ≡ true
open-append [] t h k = rw (nil-append t) k
open-append (c ∷ s) t h k =
    rw (cons-append c s t) (ground (arith, open-append s t (ground arith) k))

module _ (expand : String → String) where
  -- Behind `${` and a first character, the scan reads up to the brace.
  scan-inside :
      (a : Char) (acc s rest : String)
      → is_open_text s ≡ true
      → scan expand (inside (a ∷ acc)) (s ++ ("}" ++ rest))
        ≡ expand ((a ∷ acc) ++ s) ++ scan expand outside rest
  unfolding scan
  scan-inside a acc [] rest h =
      rw (nil-append ("}" ++ rest))
        (rw (append-nil (a ∷ acc)) (rw (cons-append) (rw (nil-append rest) refl)))
  scan-inside a acc (c ∷ s) rest h =
      let e : eqb (code c) b'}' ≡ false = ground arith in
      rw (cons-append c s ("}" ++ rest)) (
        rw (e, scan)
          (rw (cons-append a acc (c ∷ "")) (scan-inside a (acc ++ (c ∷ "")) s rest (ground arith))
            ∙ ap (λ z. expand z ++ scan expand outside rest) (moved a acc c s)))
    where
      moved :
          (a : Char) (acc : String) (c : Char) (s : String)
          → (a ∷ (acc ++ (c ∷ ""))) ++ s ≡ (a ∷ acc) ++ (c ∷ s)
      moved a acc c s =
          cons-append a (acc ++ (c ∷ "")) s
          ∙ ap (λ z. a ∷ z)
              (append_assoc acc (c ∷ "") s
                ∙ ap (λ z. acc ++ z) (cons-append c "" s ∙ ap (λ z. c ∷ z) (nil-append s)))
          ∙ sym (cons-append a acc (c ∷ s))

split_dot-plain : (n f : String) → is_plain n ≡ true → split_dot (n ++ ("." ++ f)) ≡ (n, some f)
unfolding split_dot
split_dot-plain [] f h = rw (nil-append ("." ++ f)) (rw (cons-append) (rw (nil-append f) refl))
split_dot-plain (c ∷ n) f h =
    let e : eqb (code c) b'.' ≡ false = ground arith in
    let ih = split_dot-plain n f (ground arith) in
    rw (cons-append c n ("." ++ f)) (rw e (rw ih refl))

pub drop_close-plain : (s : String) → drop_close (s ++ "}") ≡ some s
unfolding drop_close
drop_close-plain [] = refl
drop_close-plain (c ∷ []) = rw (cons-append c "" "}") refl
drop_close-plain (c ∷ d ∷ s) =
    let ih = drop_close-plain (d ∷ s) in
    rw (cons-append c (d ∷ s) "}")
      (rw (cons-append d s "}") (rw (rw (cons-append d s "}") at ih, drop_close) refl))

-- The text of one reference.
abbrev pub reference : String → String → String
reference n f = "${" ++ ((n ++ ("." ++ f)) ++ "}")

scan-opened :
    (expand : String → String) (s : String)
    → scan expand outside ("${" ++ s) ≡ scan expand (inside "") s
unfolding scan
scan-opened expand s = rw (cons-append) (rw (cons-append) (rw (nil-append s) refl))

replace-reference :
    (expand : String → String) (a : Char) (n f : String)
    → is_plain (a ∷ n) ≡ true
    → is_plain f ≡ true
    → replace expand (reference (a ∷ n) f) ≡ expand ((a ∷ n) ++ ("." ++ f))
unfolding replace scan
replace-reference expand a n f hn hf =
    let tail : String = n ++ ("." ++ f) in
    let e : eqb (code a) b'}' ≡ false = ground arith in
    let dotted : is_open_text ("." ++ f) ≡ true = open-append "." f refl (open_of_plain f hf) in
    let no_brace : is_open_text tail ≡ true =
      open-append n ("." ++ f) (open_of_plain n (ground arith)) dotted in
    scan-opened expand (((a ∷ n) ++ ("." ++ f)) ++ "}")
    ∙ rw (cons-append a n ("." ++ f)) (
        rw (cons-append a tail "}") (
          rw (e, scan)
            (scan-inside expand a "" tail "" no_brace
              ∙ append-nil (expand ((a ∷ "") ++ tail))
              ∙ ap expand (cons-append a "" tail ∙ ap (λ z. a ∷ z) (nil-append tail)))))

contains_ref-opened : (s : String) → contains_ref ("${" ++ s) ≡ true
unfolding contains_ref
contains_ref-opened s = rw (cons-append) (rw (cons-append) refl)

expand_split :
    (fmt : Format) (scope : Scope) (path n f : String) (node : Object) (v : Value)
    → split_dot path ≡ (n, some f)
    → get scope n ≡ some node
    → get node f ≡ some v
    → expand fmt scope path ≡ fmt.sprint v
unfolding expand
expand_split fmt scope path n f node v e at_node at_field =
    let e0 = ap (λ (p : String × Option String). p.0) e in
    let e1 = ap (λ (p : String × Option String). p.1) e in
    rw (expand, e0) (rw (expand, at_node) (rw (expand, e1) (rw (expand, at_field) refl)))

-- Where the scope has a node of a plain name with a field of a plain name, `Resolve` turns the
-- reference to it into the text of the field's value.
pub resolve-reference :
    (fmt : Format) (scope : Scope) (a : Char) (n f : String) (node : Object) (v : Value)
    → is_plain (a ∷ n) ≡ true
    → is_plain f ≡ true
    → get scope (a ∷ n) ≡ some node
    → get node f ≡ some v
    → resolve fmt scope (reference (a ∷ n) f) ≡ fmt.sprint v
unfolding resolve expand
resolve-reference fmt scope a n f node v hn hf at_node at_field =
    rw (contains_ref-opened (((a ∷ n) ++ ("." ++ f)) ++ "}")) (
      replace-reference (expand fmt scope) a n f hn hf
      ∙ expand_split fmt scope ((a ∷ n) ++ ("." ++ f)) (a ∷ n) f node v
          (split_dot-plain (a ∷ n) f hn) at_node at_field)
