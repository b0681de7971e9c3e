-- ===== src/Agent/Extract.antt =====
-- `extractJSON` and `truncate` of core/pkg/engine/executor/supervisor.go and helpers.go.
-- unicode.IsSpace, and the length and the prefixes of a text by its bytes, are parameters.
use Prim.Native.String.{[], ◌∷◌, ◌++◌}
use Prim.Native.Char.{Char, code}
use flowgent.Prelude.{ℕ, String, Bool, Option, none, some, ◌==◌, eqb, leb, if◌then◌else◌}
use flowgent.Prelude.Dict.{get_or}
use flowgent.Prelude.Text.{cut_prefix}

-- strings.TrimPrefix
abbrev pub trim_prefix : String → String → String
trim_prefix s pre = get_or s (cut_prefix s pre)

-- strings.TrimSuffix
unfoldable pub trim_suffix : String → String → String
trim_suffix [] suffix = []
trim_suffix (c ∷ s) suffix =
    let rest = trim_suffix s suffix in if (c ∷ s) == suffix then [] else c ∷ rest

-- The part of a text from its first `{`, and the part up to its last `}`.
unfoldable pub from_open : String → Option String
from_open [] = none
from_open (c ∷ s) = let later = from_open s in if eqb (code c) b'{' then some (c ∷ s) else later

unfoldable pub to_close : String → Option String
to_close [] = none
to_close (c ∷ s) = elim (to_close s) [
  | some t ↦ some (c ∷ t)
  | none ↦ if eqb (code c) b'}' then some (c ∷ []) else none
]

module _ (is_space : Char → Bool) where
  -- strings.TrimSpace
  unfoldable pub trim_left : String → String
  trim_left [] = []
  trim_left (c ∷ s) = let rest = trim_left s in if is_space c then rest else c ∷ s

  unfoldable pub trim_right : String → String
  trim_right [] = []
  trim_right (c ∷ s) = elim (trim_right s) [
    | [] ↦ if is_space c then [] else c ∷ []
    | d ∷ t ↦ c ∷ d ∷ t
  ]

  abbrev pub trim_space : String → String
  trim_space s = trim_right (trim_left s)

  -- extractJSON
  unfoldable pub extract_json : String → String
  unfolding trim_suffix from_open to_close trim_left trim_right
  extract_json raw =
      let s = trim_space (trim_suffix (trim_prefix (trim_prefix raw "```json") "```") "```") in
      elim (from_open s) [ none ↦ s | some t ↦ get_or s (to_close t) ]

-- truncate, over the number of bytes and the prefix of so many bytes
unfoldable pub truncate : (String → ℕ) → (ℕ → String → String) → String → ℕ → String
truncate size prefix s max_len = if leb (size s) max_len then s else prefix max_len s ++ "..."
