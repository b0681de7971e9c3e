-- ===== src/Schema/Sound.antt =====
-- The validation of common/pkg/utils/schema.go finds no violation exactly in the values that conform.
use Prim.Native.String.{◌++◌ as str_append}
use flowgent.Prelude.{
  ℕ, String, Bool, Option, none, some, List, ◌==◌, ◌≡◌, ◌↔◌, refl, sym, ap, subst, Bool-cases, ◌⊎◌,
  inl, inr, some_inj,
}
use flowgent.Prelude.Dict.{get}
use flowgent.Value.{Value, null, bool, number, str, obj, arr, Fields, end, field, Object}
use flowgent.Schema.Conforms.{Has, Conforms}
use flowgent.Schema.Node.{
  obj_inj, Ok, FitsRaw, FitsProperties, FitsItems, PropertiesFit, ItemsFit, node_iff,
}
use flowgent.Schema.Loops.{first-none, each_item-none, none-some}
use flowgent.Schema.{
  properties, properties_of, each_property, property, items, items_of, validate_node, validate,
}

tail_eq :
    (j : String) (y : Value) (fs : Fields) (k : String) (x : Value) (gs : Fields)
    → field j y fs ≡ field k x gs
    → fs ≡ gs
tail_eq j y fs k x gs h = cc

Has-cases :
    (j : String) (y : Value) (key : String) (x : Value) (rest : Fields)
    → Has j y (field key x rest)
    → ((j ≡ key) × (y ≡ x)) ⊎ Has j y rest
Has-cases j y key x rest h = go (field key x rest) refl h
  where
    go : (fs : Fields) → fs ≡ field key x rest → Has j y fs → ((j ≡ key) × (y ≡ x)) ⊎ Has j y rest
    go fs e Has.here = inl (cc, cc)
    go fs e (Has.there {rest = tail} k) = inr (subst (Has j y) (tail_eq _ _ tail _ _ rest e) k)

module _ (show : ℕ → String) (is_whole : ℕ → Bool) where
  mutual
    unfolding properties properties_of each_property property items items_of get

    properties_iff :
        (schema : Fields) (m : Object) (path : String)
        → (properties show is_whole schema m path ≡ none) ↔ PropertiesFit show is_whole schema m
    properties_iff end m path = (λ h ps e. absurd (none-some _ (sym e)), λ f. refl)
    properties_iff (field k x rest) m path = elim (Bool-cases (k == "properties")) [
      | inl e ↦
          let (to, from) = properties_of_iff x m path in
          rw e (λ h ps q. to h ps (some_inj q), λ f. from (λ ps q. f ps (ap some q)))
      | inr e ↦ rw e (properties_iff rest m path)
    ]

    properties_of_iff :
        (x : Value) (m : Object) (path : String)
        → (properties_of show is_whole x m path ≡ none)
          ↔ ((ps : Fields) → x ≡ obj ps → FitsProperties show is_whole ps m)
    properties_of_iff (obj ps) m path =
        let (to, from) = each_property_iff ps m path in
        (
          λ h qs e. subst (λ z. FitsProperties show is_whole z m) (obj_inj ps qs e) (to h),
          λ f. from (f ps refl),
        )
    properties_of_iff null m path = (λ h ps e. cc, λ f. refl)
    properties_of_iff (bool b) m path = (λ h ps e. cc, λ f. refl)
    properties_of_iff (number n) m path = (λ h ps e. cc, λ f. refl)
    properties_of_iff (str s) m path = (λ h ps e. cc, λ f. refl)
    properties_of_iff (arr vs) m path = (λ h ps e. cc, λ f. refl)

    each_property_iff :
        (ps : Fields) (m : Object) (path : String)
        → (each_property show is_whole ps m path ≡ none) ↔ FitsProperties show is_whole ps m
    each_property_iff end m path = (λ h key sub i. elim i [ ], λ f. refl)
    each_property_iff (field key raw rest) m path =
        let (to_here, from_here) =
          property_iff raw (get m key) (str_append path (str_append "." key)) in
        let (to_rest, from_rest) = each_property_iff rest m path in
        (
          λ h j sub i child g.
              let (a, b) = (first-none _ _).0 h in
              elim (Has-cases j (obj sub) key raw rest i) [
                | inl (e, r) ↦ to_here a sub (sym r) child (subst (λ z. get m z ≡ some child) e g)
                | inr k ↦ to_rest b j sub k child g
              ],
          λ f. (first-none _ _).1 (
            from_here (λ sub r v g.
                f key sub (subst (λ z. Has key z (field key raw rest)) r Has.here) v g),
            from_rest (λ j sub k child g. f j sub (Has.there k) child g),
          ),
        )

    property_iff :
        (raw : Value) (child : Option Value) (path : String)
        → (property show is_whole raw child path ≡ none) ↔ FitsRaw show is_whole raw child
    property_iff (obj sub) none path = (λ h qs e v k. absurd (none-some v (sym k)), λ f. refl)
    property_iff (obj sub) (some v) path =
        let (to, from) =
          node_iff show is_whole _ _ sub (λ m p. properties_iff sub m p)
            (λ vs p. items_iff sub vs p) v path in
        (
          λ h qs e w k.
              subst (λ z. Ok show is_whole z w) (obj_inj sub qs e)
                (subst (Ok show is_whole sub) (some_inj k) (to h)),
          λ f. from (f sub refl v refl),
        )
    property_iff null child path = (λ h sub e. cc, λ f. refl)
    property_iff (bool b) child path = (λ h sub e. cc, λ f. refl)
    property_iff (number n) child path = (λ h sub e. cc, λ f. refl)
    property_iff (str s) child path = (λ h sub e. cc, λ f. refl)
    property_iff (arr vs) child path = (λ h sub e. cc, λ f. refl)

    items_iff :
        (schema : Fields) (vs : List Value) (path : String)
        → (items show is_whole schema vs path ≡ none) ↔ ItemsFit show is_whole schema vs
    items_iff end vs path = (λ h sub e. absurd (none-some _ (sym e)), λ f. refl)
    items_iff (field k x rest) vs path = elim (Bool-cases (k == "items")) [
      | inl e ↦
          let (to, from) = items_of_iff x vs path in
          rw e (λ h sub q. to h sub (some_inj q), λ f. from (λ sub q. f sub (ap some q)))
      | inr e ↦ rw e (items_iff rest vs path)
    ]

    items_of_iff :
        (x : Value) (vs : List Value) (path : String)
        → (items_of show is_whole x vs path ≡ none)
          ↔ ((sub : Fields) → x ≡ obj sub → FitsItems show is_whole sub vs)
    items_of_iff (obj sub) vs path =
        let (to, from) =
          each_item-none show is_whole _ (Ok show is_whole sub)
            (node_iff show is_whole _ _ sub (λ m p. properties_iff sub m p)
              (λ ws p. items_iff sub ws p))
            path 0 vs in
        (
          λ h qs e. subst (λ z. FitsItems show is_whole z vs) (obj_inj sub qs e) (to h),
          λ f. from (f sub refl),
        )
    items_of_iff null vs path = (λ h sub e. cc, λ f. refl)
    items_of_iff (bool b) vs path = (λ h sub e. cc, λ f. refl)
    items_of_iff (number n) vs path = (λ h sub e. cc, λ f. refl)
    items_of_iff (str s) vs path = (λ h sub e. cc, λ f. refl)
    items_of_iff (arr xs) vs path = (λ h sub e. cc, λ f. refl)

-- The validation of a value against a schema finds no violation exactly if the value conforms: it
-- has the type that the schema names, where a type that is none of the six checked ones admits
-- every value but null, which the type null alone admits; it has the required keys, unless that
-- type is array; its values under the properties of an object schema conform in turn, and so do the
-- items under an array schema.
pub validate_iff :
    (show : ℕ → String) (is_whole : ℕ → Bool) (schema : Fields) (v : Value)
    → (validate show is_whole (some schema) v ≡ none) ↔ Conforms is_whole schema v
unfolding validate validate_node
validate_iff show is_whole schema v =
    node_iff show is_whole _ _ schema (λ m p. properties_iff show is_whole schema m p)
      (λ vs p. items_iff show is_whole schema vs p) v "$"
