-- ===== src/Schema/Node.antt =====
-- One node of a schema: validateNode, validateObject and validateArray of common/pkg/utils/schema.go.
use flowgent.Prelude.{
  ℕ, String, Bool, true, false, Option, none, some, List, ◌==◌, ◌≡◌, ◌↔◌, refl, sym, ◌∙◌, subst,
  Memᴰ, arith, eq_iff, Option-cases, Bool-cases, inl, inr, some_inj,
}
use flowgent.Prelude.Dict.{get}
use flowgent.Value.{
  Value, null, bool, number, str, obj, arr, int, float64, Fields, Object, of_fields, of_items,
  as_object, as_list, as_string,
}
use flowgent.Schema.Required.{Violation, required_of, check_required}
use flowgent.Schema.Conforms.{
  Has, HasKeys, entry, admits, Conforms, conforms, typed_of, keyed_of, property_of, item_of,
}
use flowgent.Schema.Loops.{
  first-none, check_typed-none, each_required-none, ff_tt, none-some, as_string-none,
  as_string-some, str_inj,
}
use flowgent.Schema.{has_type, check_typed, node}

pub obj_inj : (fs gs : Fields) → obj fs ≡ obj gs → fs ≡ gs
obj_inj fs gs h = cc

has_type_iff :
    (schema : Fields) (t : String)
    → (has_type schema t ≡ true) ↔ (entry schema "type" ≡ some (str t))
unfolding has_type
has_type_iff schema t = elim (Option-cases (as_string (entry schema "type"))) [
  | inl e ↦ (λ h. absurd (ff_tt (rw (has_type, e) at h)), λ h. absurd (as_string-none _ t e h))
  | inr (s, e) ↦
      let q = as_string-some (entry schema "type") s e in
      (
        λ h. let r : s ≡ t = ground (arith, eq_iff s t, rw (has_type, e) at h) in rw (sym r) q,
        λ h. rw (has_type, e) (let r : s ≡ t = str_inj _ s t q h in ground (arith, eq_iff s t)),
      )
]

check_required-none :
    (o : Option (List Value)) (m : Object) (path : String)
    → (check_required o m path ≡ none) ↔ ((keys : List Value) → o ≡ some keys → HasKeys keys m)
unfolding check_required
check_required-none none m path = (λ h keys e. absurd (none-some keys (sym e)), λ f. refl)
check_required-none (some ks) m path =
    let (to, from) = each_required-none ks m path in
    (λ h keys e. subst (λ z. HasKeys z m) (some_inj e) (to h), λ f. from (f ks refl))

-- Two types of one schema are the same.
other_type :
    (schema : Fields) (s t : String)
    → entry schema "type" ≡ some (str s)
    → (s == t) ≡ false
    → entry schema "type" ≡ some (str t)
    → ⊥
other_type schema s t h d k =
    let r : s ≡ t = str_inj _ s t h k in ff_tt (sym d ∙ ground (arith, eq_iff s t))

module _ (show : ℕ → String) (is_whole : ℕ → Bool) where
  abbrev pub Ok : Fields → Value → Type 0
  Ok = Conforms is_whole

  -- The value of a property, where there is one, conforms.
  abbrev pub FitsRaw : Value → Option Value → Type 0
  FitsRaw raw child = (sub : Fields) → raw ≡ obj sub → (v : Value) → child ≡ some v → Ok sub v

  abbrev pub FitsProperties : Fields → Object → Type 0
  FitsProperties ps m =
      (key : String) (sub : Fields)
      → Has key (obj sub) ps
      → (child : Value) → get m key ≡ some child
      → Ok sub child

  abbrev pub FitsItems : Fields → List Value → Type 0
  FitsItems sub vs = (item : Value) → Memᴰ item vs → Ok sub item

  abbrev pub PropertiesFit : Fields → Object → Type 0
  PropertiesFit schema m =
      (ps : Fields) → entry schema "properties" ≡ some (obj ps) → FitsProperties ps m

  abbrev pub ItemsFit : Fields → List Value → Type 0
  ItemsFit schema vs = (sub : Fields) → entry schema "items" ≡ some (obj sub) → FitsItems sub vs

  admits-object :
      (v : Value) → admits is_whole "object" v ≡ true → (m : Object) × (as_object (some v) ≡ some m)
  admits-object null h = cc
  admits-object (bool b) h = cc
  admits-object (number (int neg size)) h = cc
  admits-object (number (float64 b)) h = absurd (ground arith)
  admits-object (str s) h = cc
  admits-object (obj fs) h = (of_fields fs, refl)
  admits-object (arr vs) h = cc

  admits-array :
      (v : Value)
      → admits is_whole "array" v ≡ true
      → (vs : List Value) × (as_list (some v) ≡ some vs)
  admits-array null h = cc
  admits-array (bool b) h = cc
  admits-array (number (int neg size)) h = cc
  admits-array (number (float64 b)) h = absurd (ground arith)
  admits-array (str s) h = cc
  admits-array (obj fs) h = cc
  admits-array (arr vs) h = (of_items vs, refl)

  module _ (props : Object → String → Option Violation)
      (its : List Value → String → Option Violation) (schema : Fields)
      (hp : (m : Object) (path : String) → (props m path ≡ none) ↔ PropertiesFit schema m)
      (hi : (vs : List Value) (path : String) → (its vs path ≡ none) ↔ ItemsFit schema vs)
      (v : Value) (path : String) where
    abbrev pub IsAccepted : Type 0
    IsAccepted = node show is_whole props its schema v path ≡ none

    object_iff : has_type schema "object" ≡ true → IsAccepted ↔ Ok schema v
    unfolding node
    object_iff e =
        let t = (has_type_iff schema "object").0 e in
        (
          λ h.
              let (a, b) =
                (first-none (check_typed show is_whole schema v path) _).0 (rw (node, e) at h) in
              let typed = (check_typed-none show is_whole schema v path).0 a in
              let (m, q) = admits-object v (typed "object" t) in
              let (c, d) = (first-none (props m path) _).0 (rw q at b) in
              conforms typed (λ keys r n. (m, q, (check_required-none _ m path).0 d keys r))
                (λ m' ps key sub child t' q' r k g.
                  (hp m path).0 c ps r key sub k child
                    (subst (λ z. get z key ≡ some child) (some_inj (sym q' ∙ q)) g))
                (λ vs sub item t'. absurd (other_type schema "object" "array" t refl t')),
          λ c.
              let (m, q) = admits-object v (typed_of is_whole c "object" t) in
              let props_none =
                (hp m path).1
                  (λ ps r key sub k child g. property_of is_whole c m ps key sub child t q r k g) in
              let keys_none = (check_required-none (required_of schema) m path).1 (λ keys r.
                let (m', q', has) =
                  keyed_of is_whole c keys r (other_type schema "object" "array" t refl) in
                subst (HasKeys keys) (some_inj (sym q' ∙ q)) has) in
              rw (node, e)
                ((first-none _ _).1 (
                  (check_typed-none show is_whole schema v path).1 (typed_of is_whole c),
                  rw q ((first-none _ _).1 (props_none, keys_none)),
                )),
        )

    array_iff :
        has_type schema "object" ≡ false → has_type schema "array" ≡ true → IsAccepted ↔ Ok schema v
    unfolding node
    array_iff o e =
        let t = (has_type_iff schema "array").0 e in
        (
          λ h.
              let (a, b) =
                (first-none (check_typed show is_whole schema v path) _).0 (rw (node, o, e) at h) in
              let typed = (check_typed-none show is_whole schema v path).0 a in
              let (vs, q) = admits-array v (typed "array" t) in
              conforms typed (λ keys r n. absurd (n t))
                (λ m ps key sub child t'. absurd (other_type schema "array" "object" t refl t'))
                (λ vs' sub item t' q' r k.
                  (hi vs path).0 (rw q at b) sub r item
                    (subst (Memᴰ item) (some_inj (sym q' ∙ q)) k)),
          λ c.
              let (vs, q) = admits-array v (typed_of is_whole c "array" t) in
              rw (node, o, e)
                ((first-none _ _).1 (
                  (check_typed-none show is_whole schema v path).1 (typed_of is_whole c),
                  rw q ((hi vs path).1 (λ sub r item k. item_of is_whole c vs sub item t q r k)),
                )),
        )

    other_iff :
        has_type schema "object" ≡ false
        → has_type schema "array" ≡ false
        → IsAccepted ↔ Ok schema v
    unfolding node
    other_iff o e = (
      λ h.
          let (a, b) =
            (first-none (check_typed show is_whole schema v path) _).0 (rw (node, o, e) at h) in
          conforms ((check_typed-none show is_whole schema v path).0 a)
            (λ keys r n. elim (Option-cases (as_object (some v))) [
              | inl q ↦ absurd (none-some _ (rw (r, q) at b))
              | inr (m, q) ↦
                  (m, q, (check_required-none (some keys) m path).0 (rw (r, q) at b) keys refl)
            ])
            (λ m ps key sub child t'. absurd (ff_tt (sym o ∙ (has_type_iff schema "object").1 t')))
            (λ vs sub item t'. absurd (ff_tt (sym e ∙ (has_type_iff schema "array").1 t'))),
      λ c.
          let typed = (check_typed-none show is_whole schema v path).1 (typed_of is_whole c) in
          elim (Option-cases (required_of schema)) [
            | inl r ↦ rw (node, o, e) ((first-none _ _).1 (typed, rw r refl))
            | inr (keys, r) ↦
                let (m, q, has) =
                  keyed_of is_whole c keys r
                    (λ t'. ff_tt (sym e ∙ (has_type_iff schema "array").1 t')) in
                let keys_none =
                  (check_required-none (some keys) m path).1
                    (λ ks k. subst (λ z. HasKeys z m) (some_inj k) has) in
                rw (node, o, e) ((first-none _ _).1 (typed, rw (r, q) keys_none))
          ],
    )

    -- One node, given its loops.
    pub node_iff : IsAccepted ↔ Ok schema v
    node_iff = elim (Bool-cases (has_type schema "object")) [
      | inl o ↦ object_iff o
      | inr o ↦ elim (Bool-cases (has_type schema "array")) [
        | inl e ↦ array_iff o e
        | inr e ↦ other_iff o e
      ]
    ]
