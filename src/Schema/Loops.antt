-- ===== src/Schema/Loops.antt =====
-- When the checks and the loops of common/pkg/utils/schema.go find no violation.
use flowgent.Prelude.{
  ℕ, suc, String, Bool, true, false, Option, none, some, List, [], ◌∷◌, ◌==◌, ◌≡◌, ◌↔◌, refl, sym,
  subst, is_some, Memᴰ, arith, eq_iff, Option-cases, Bool-cases, inl, inr,
}
use mathlib.Core.List.Memᴰ
use flowgent.Prelude.Dict.{get}
use flowgent.Value.{
  Value, null, bool, number, str, obj, arr, int, float64, Fields, Object, as_string,
}
use flowgent.Schema.Required.{Violation, first, each_required}
use flowgent.Schema.Conforms.{HasKeys, entry, admits}
use flowgent.Schema.{fits, check_type, check_typed, each_item}

pub first-none : (a b : Option Violation) → (first a b ≡ none) ↔ ((a ≡ none) × (b ≡ none))
first-none none b = (λ h. (refl, h), λ (h, k). k)
first-none (some e) b = (λ h. cc, λ (h, k). cc)

pub str_eq : (s t : String) → str s ≡ str t → s ≡ t
str_eq s t h = cc

pub none-some : {A : Type 0} (a : A) → some a ≡ none → ⊥
none-some a h = cc

pub ff_tt : false ≡ true → ⊥
ff_tt h = cc

pub str_inj : (o : Option Value) (s t : String) → o ≡ some (str s) → o ≡ some (str t) → s ≡ t
str_inj o s t h k = cc

pub as_string-none : (o : Option Value) (t : String) → as_string o ≡ none → o ≡ some (str t) → ⊥
as_string-none o t h e = cc

pub as_string-some : (o : Option Value) (t : String) → as_string o ≡ some t → o ≡ some (str t)
as_string-some none t h = cc
as_string-some (some null) t h = cc
as_string-some (some (bool b)) t h = cc
as_string-some (some (number n)) t h = cc
as_string-some (some (str s)) t h = cc
as_string-some (some (obj fs)) t h = cc
as_string-some (some (arr vs)) t h = cc

literal : (P : String → Type 0) (t s : String) → P s → (t == s) ≡ true → P t
literal P t s p e = let q : t ≡ s = ground (arith, eq_iff t s) in subst P (sym q) p

-- A type is one of the six, or another.
type_cases :
    (P : String → Type 0) (t : String)
    → P "object"
    → P "array"
    → P "string"
    → P "number"
    → P "boolean"
    → P "integer"
    → ((t == "object") ≡ false
        → (t == "array") ≡ false
        → (t == "string") ≡ false
        → (t == "number") ≡ false
        → (t == "boolean") ≡ false
        → (t == "integer") ≡ false
        → P t)
    → P t
type_cases P t p1 p2 p3 p4 p5 p6 p7 = elim (Bool-cases (t == "object")) [
  | inl e ↦ literal P t "object" p1 e
  | inr n1 ↦ elim (Bool-cases (t == "array")) [
    | inl e ↦ literal P t "array" p2 e
    | inr n2 ↦ elim (Bool-cases (t == "string")) [
      | inl e ↦ literal P t "string" p3 e
      | inr n3 ↦ elim (Bool-cases (t == "number")) [
        | inl e ↦ literal P t "number" p4 e
        | inr n4 ↦ elim (Bool-cases (t == "boolean")) [
          | inl e ↦ literal P t "boolean" p5 e
          | inr n5 ↦ elim (Bool-cases (t == "integer")) [
            | inl e ↦ literal P t "integer" p6 e
            | inr n6 ↦ p7 n1 n2 n3 n4 n5 n6
          ]
        ]
      ]
    ]
  ]
]

-- A required entry that is no text asks for nothing.
skip_lem :
    (x : Value) (rest : List Value) (m : Object) (path : String)
    → ((key : String) → str key ≡ x → ⊥)
    → (each_required rest m path ≡ none) ↔ HasKeys rest m
    → (each_required rest m path ≡ none) ↔ HasKeys (x ∷ rest) m
skip_lem x rest m path no_key (to, from) = (
  λ h key k. elim (Memᴰ.cases_cons k) [ inl q ↦ absurd (no_key key q) | inr j ↦ to h key j ],
  λ f. from (λ key j. f key (Memᴰ.tail j)),
)

module _ (show : ℕ → String) (is_whole : ℕ → Bool) where
  abbrev IsRight : Value → String → String → Type 0
  IsRight v path t = (check_type show is_whole t v path ≡ none) ↔ (admits is_whole t v ≡ true)

  check_type-none :
      (t : String) (v : Value) (path : String)
      → (check_type show is_whole t v path ≡ none) ↔ (admits is_whole t v ≡ true)
  unfolding check_type fits
  check_type-none t null path = elim (Bool-cases (t == "null")) [
    | inl e ↦
        let e' : t ≡ "null" = ground (arith, eq_iff t "null") in
        (
          λ h. ground arith,
          λ h. subst (λ (u : String). check_type show is_whole u null path ≡ none) (sym e') refl,
        )
    | inr e ↦ (λ h. ground arith, λ h. ground arith)
  ]
  check_type-none t (bool b) path =
      type_cases (IsRight (bool b) path) t (λ h. ground arith, λ h. ground arith)
        (λ h. ground arith, λ h. ground arith) (λ h. ground arith, λ h. ground arith)
        (λ h. ground arith, λ h. ground arith) (λ h. ground arith, λ h. ground arith)
        (λ h. ground arith, λ h. ground arith)
        (λ n1 n2 n3 n4 n5 n6. (λ h. ground arith, λ h. ground arith))
  check_type-none t (number (int neg size)) path =
      type_cases (IsRight (number (int neg size)) path) t (λ h. ground arith, λ h. ground arith)
        (λ h. ground arith, λ h. ground arith) (λ h. ground arith, λ h. ground arith)
        (λ h. ground arith, λ h. ground arith) (λ h. ground arith, λ h. ground arith)
        (λ h. ground arith, λ h. ground arith)
        (λ n1 n2 n3 n4 n5 n6. (λ h. ground arith, λ h. ground arith))
  check_type-none t (number (float64 b)) path =
      type_cases (IsRight (number (float64 b)) path) t (λ h. ground arith, λ h. ground arith)
        (λ h. ground arith, λ h. ground arith) (λ h. ground arith, λ h. ground arith)
        (λ h. ground arith, λ h. ground arith) (λ h. ground arith, λ h. ground arith)
        (λ h. ground arith, λ h. ground arith)
        (λ n1 n2 n3 n4 n5 n6. (λ h. ground arith, λ h. ground arith))
  check_type-none t (str s) path =
      type_cases (IsRight (str s) path) t (λ h. ground arith, λ h. ground arith)
        (λ h. ground arith, λ h. ground arith) (λ h. ground arith, λ h. ground arith)
        (λ h. ground arith, λ h. ground arith) (λ h. ground arith, λ h. ground arith)
        (λ h. ground arith, λ h. ground arith)
        (λ n1 n2 n3 n4 n5 n6. (λ h. ground arith, λ h. ground arith))
  check_type-none t (obj fs) path =
      type_cases (IsRight (obj fs) path) t (λ h. ground arith, λ h. ground arith)
        (λ h. ground arith, λ h. ground arith) (λ h. ground arith, λ h. ground arith)
        (λ h. ground arith, λ h. ground arith) (λ h. ground arith, λ h. ground arith)
        (λ h. ground arith, λ h. ground arith)
        (λ n1 n2 n3 n4 n5 n6. (λ h. ground arith, λ h. ground arith))
  check_type-none t (arr vs) path =
      type_cases (IsRight (arr vs) path) t (λ h. ground arith, λ h. ground arith)
        (λ h. ground arith, λ h. ground arith) (λ h. ground arith, λ h. ground arith)
        (λ h. ground arith, λ h. ground arith) (λ h. ground arith, λ h. ground arith)
        (λ h. ground arith, λ h. ground arith)
        (λ n1 n2 n3 n4 n5 n6. (λ h. ground arith, λ h. ground arith))

  pub each_item-none :
      (check : Value → String → Option Violation) (Q : Value → Type 0)
      → ((v : Value) (path : String) → (check v path ≡ none) ↔ Q v)
      → (path : String) (i : ℕ) (vs : List Value)
      → (each_item show is_whole check path i vs ≡ none) ↔ ((v : Value) → Memᴰ v vs → Q v)
  unfolding each_item
  each_item-none check Q h path i [] = (λ e v m. absurd (Memᴰ.not-nil m), λ f. refl)
  each_item-none check Q h path i (v ∷ vs) =
      let rest = each_item-none check Q h path (suc i) vs in
      let here = h v _ in
      (
        λ e w m.
            let (a, b) = (first-none _ _).0 e in
            elim (Memᴰ.cases_cons m) [ inl q ↦ subst Q (sym q) (here.0 a) | inr k ↦ rest.0 b w k ],
        λ f. (first-none _ _).1 (here.1 (f v (Memᴰ.head refl)), rest.1 (λ w k. f w (Memᴰ.tail k))),
      )

  pub check_typed-none :
      (schema : Fields) (v : Value) (path : String)
      → (check_typed show is_whole schema v path ≡ none)
        ↔ ((t : String) → entry schema "type" ≡ some (str t) → admits is_whole t v ≡ true)
  unfolding check_typed
  check_typed-none schema v path = elim (Option-cases (as_string (entry schema "type"))) [
    | inl e ↦ (λ h t q. absurd (as_string-none _ t e q), λ f. rw (check_typed, e) refl)
    | inr (t, e) ↦
        let q = as_string-some (entry schema "type") t e in
        (
          λ h u k.
              subst (λ z. admits is_whole z v ≡ true) (str_inj _ t u q k)
                ((check_type-none t v path).0 (rw (check_typed, e) at h)),
          λ f. rw (check_typed, e) ((check_type-none t v path).1 (f t q)),
        )
  ]

pub each_required-none :
    (keys : List Value) (m : Object) (path : String)
    → (each_required keys m path ≡ none) ↔ HasKeys keys m
unfolding each_required
each_required-none [] m path = (λ e key k. absurd (Memᴰ.not-nil k), λ f. refl)
each_required-none (str key ∷ rest) m path = elim (Option-cases (get m key)) [
  | inl e ↦ (
    λ h. absurd (none-some _ (rw (e, each_required) at h)),
    λ f. absurd (ff_tt (rw e at (f key (Memᴰ.head refl)))),
  )
  | inr (v, e) ↦
      let (to, from) = each_required-none rest m path in
      (
        λ h other k. elim (Memᴰ.cases_cons k) [
          | inl q ↦ subst (λ z. is_some (get m z) ≡ true) (sym (str_eq other key q)) (rw e refl)
          | inr j ↦ to (rw (e, each_required) at h) other j
        ],
        λ f. rw (e, each_required) (from (λ other j. f other (Memᴰ.tail j))),
      )
]
each_required-none (null ∷ rest) m path =
    skip_lem null rest m path (λ key e. cc) (each_required-none rest m path)
each_required-none (bool b ∷ rest) m path =
    skip_lem (bool b) rest m path (λ key e. cc) (each_required-none rest m path)
each_required-none (number n ∷ rest) m path =
    skip_lem (number n) rest m path (λ key e. cc) (each_required-none rest m path)
each_required-none (obj fs ∷ rest) m path =
    skip_lem (obj fs) rest m path (λ key e. cc) (each_required-none rest m path)
each_required-none (arr vs ∷ rest) m path =
    skip_lem (arr vs) rest m path (λ key e. cc) (each_required-none rest m path)
