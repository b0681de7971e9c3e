-- ===== src/Schema/Conforms.antt =====
-- What a value that conforms to a schema is, in the subset that common/pkg/utils/schema.go supports.
use flowgent.Prelude.{
  ℕ, String, Bool, true, false, not, Option, some, List, [], ◌∷◌, ◌==◌, ◌||◌, ◌≡◌, is_some, Memᴰ,
  if◌then◌else◌,
}
use flowgent.Prelude.Dict.{get}
use flowgent.Value.{
  Value, null, bool, number, str, obj, arr, int, float64, Fields, field, Object, of_fields,
  as_object, as_list,
}
use flowgent.Schema.Required.{required_of}

-- An entry of an object.
pub data Has (key : String) (x : Value) : Fields → Type 0 where
  here : {rest : Fields} → Has key x (field key x rest)
  there : {k : String} {y : Value} {rest : Fields} → Has key x rest → Has key x (field k y rest)

abbrev pub entry : Fields → String → Option Value
entry schema key = get (of_fields schema) key

-- The keys that a list of required keys names are there.
abbrev pub HasKeys : List Value → Object → Type 0
HasKeys keys m = (key : String) → Memᴰ (str key) keys → is_some (get m key) ≡ true

abbrev pub elem : String → List String → Bool
elem t [] = false
elem t (s ∷ ss) = t == s || elem t ss

module _ (is_whole : ℕ → Bool) where
  -- The types that a value has.
  abbrev pub types_of : Value → List String
  types_of null = "null" ∷ []
  types_of (bool b) = "boolean" ∷ []
  types_of (number (int neg size)) = "number" ∷ "integer" ∷ []
  types_of (number (float64 b)) = "number" ∷ (if is_whole b then "integer" ∷ [] else [])
  types_of (str s) = "string" ∷ []
  types_of (obj fs) = "object" ∷ []
  types_of (arr vs) = "array" ∷ []

  -- The value has the type, or is not null while the type is none of the six that are checked.
  abbrev pub admits : String → Value → Bool
  admits t null = elem t (types_of null)
  admits t v =
      elem t (types_of v)
      || not (elem t ("object" ∷ "array" ∷ "string" ∷ "number" ∷ "boolean" ∷ "integer" ∷ []))

  -- A value conforms if it has the schema's type; the required keys, unless the type is array; for
  -- the type object, conforming values under the keys that the properties name; for the type array,
  -- conforming items.
  pub data Conforms : Fields → Value → Type 0 where
    conforms :
        {schema : Fields} {v : Value}
        → ((t : String) → entry schema "type" ≡ some (str t) → admits t v ≡ true)
        → ((keys : List Value)
            → required_of schema ≡ some keys
            → ((entry schema "type" ≡ some (str "array")) → ⊥)
            → (m : Object) × (as_object (some v) ≡ some m) × HasKeys keys m)
        → ((m : Object) (ps : Fields) (key : String) (sub : Fields) (child : Value)
            → entry schema "type" ≡ some (str "object")
            → as_object (some v) ≡ some m
            → entry schema "properties" ≡ some (obj ps)
            → Has key (obj sub) ps
            → get m key ≡ some child
            → Conforms sub child)
        → ((vs : List Value) (sub : Fields) (item : Value)
            → entry schema "type" ≡ some (str "array")
            → as_list (some v) ≡ some vs
            → entry schema "items" ≡ some (obj sub)
            → Memᴰ item vs
            → Conforms sub item)
        → Conforms schema v

  pub typed_of :
      {schema : Fields} {v : Value}
      → Conforms schema v
      → (t : String) → entry schema "type" ≡ some (str t)
      → admits t v ≡ true
  typed_of (conforms typed keyed ps vs) = typed

  pub keyed_of :
      {schema : Fields} {v : Value}
      → Conforms schema v
      → (keys : List Value) → required_of schema ≡ some keys
      → ((entry schema "type" ≡ some (str "array")) → ⊥)
      → (m : Object) × (as_object (some v) ≡ some m) × HasKeys keys m
  keyed_of (conforms typed keyed ps vs) = keyed

  pub property_of :
      {schema : Fields} {v : Value}
      → Conforms schema v
      → (m : Object) (ps : Fields) (key : String) (sub : Fields) (child : Value)
      → entry schema "type" ≡ some (str "object")
      → as_object (some v) ≡ some m
      → entry schema "properties" ≡ some (obj ps)
      → Has key (obj sub) ps
      → get m key ≡ some child
      → Conforms sub child
  property_of (conforms typed keyed ps vs) = ps

  pub item_of :
      {schema : Fields} {v : Value}
      → Conforms schema v
      → (vs : List Value) (sub : Fields) (item : Value) → entry schema "type" ≡ some (str "array")
      → as_list (some v) ≡ some vs
      → entry schema "items" ≡ some (obj sub)
      → Memᴰ item vs
      → Conforms sub item
  item_of (conforms typed keyed ps vs) = vs
