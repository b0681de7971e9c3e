-- ===== src/Template/Scan.antt =====
-- The text scanning under `Resolve`: what the source asks of the `strings` and `regexp` packages.
use Prim.Native.String.{[], ◌∷◌, ◌++◌}
use Prim.Native.Char.{Char, code}
use flowgent.Prelude.{String, Bool, true, false, Option, none, some, ◌&&◌, ◌||◌, eqb, if◌then◌else◌}

-- The character tests, by code point.
abbrev pub is_dollar : Char → Bool
is_dollar c = eqb (code c) b'$'

abbrev pub is_open : Char → Bool
is_open c = eqb (code c) b'{'

abbrev pub is_close : Char → Bool
is_close c = eqb (code c) b'}'

abbrev pub is_dot : Char → Bool
is_dot c = eqb (code c) b'.'

-- Where the scan of `\$\{([^}]+)\}` stands: outside a match, behind a dollar sign, or behind `${`
-- with the characters read since.
pub data Mode : Type 0 where
  outside : Mode
  dollar : Char → Mode
  inside : String → Mode

-- regexp.ReplaceAllStringFunc: each leftmost match `${path}`, of a path that is not empty, becomes
-- `expand path`. A `${` with nothing behind it, or with no `}` to come, stays.
unfoldable pub scan : (String → String) → Mode → String → String
scan expand outside [] = ""
scan expand (dollar d) [] = d ∷ ""
scan expand (inside acc) [] = "${" ++ acc
scan expand outside (c ∷ s) = elim (is_dollar c) [
  | true ↦ scan expand (dollar c) s
  | false ↦ c ∷ scan expand outside s
]
scan expand (dollar d) (c ∷ s) = elim (is_open c) [
  | true ↦ scan expand (inside "") s
  | false ↦ elim (is_dollar c) [
    | true ↦ d ∷ scan expand (dollar c) s
    | false ↦ d ∷ c ∷ scan expand outside s
  ]
]
scan expand (inside []) (c ∷ s) = elim (is_close c) [
  | true ↦ "${}" ++ scan expand outside s
  | false ↦ scan expand (inside (c ∷ "")) s
]
scan expand (inside (a ∷ acc)) (c ∷ s) = elim (is_close c) [
  | true ↦ expand (a ∷ acc) ++ scan expand outside s
  | false ↦ scan expand (inside ((a ∷ acc) ++ (c ∷ ""))) s
]

unfoldable pub replace : (String → String) → String → String
unfolding scan
replace expand s = scan expand outside s

-- strings.Contains(s, "${")
unfoldable pub contains_ref : String → Bool
contains_ref [] = false
contains_ref (c ∷ []) = false
contains_ref (c ∷ d ∷ s) = (is_dollar c && is_open d) || contains_ref (d ∷ s)

-- strings.Contains(s, " ")
unfoldable pub contains_space : String → Bool
contains_space [] = false
contains_space (c ∷ s) = eqb (code c) b' ' || contains_space s

-- strings.SplitN(s, ".", 2)
unfoldable pub split_dot : String → String × Option String
split_dot [] = ("", none)
split_dot (c ∷ s) =
    let (head, rest) = split_dot s in if is_dot c then ("", some s) else (c ∷ head, rest)

-- s without its last character, if that is `}`.
unfoldable pub drop_close : String → Option String
drop_close [] = none
drop_close (c ∷ []) = if is_close c then some "" else none
drop_close (c ∷ d ∷ s) = elim (drop_close (d ∷ s)) [ none ↦ none | some t ↦ some (c ∷ t) ]

-- The middle of a string with the prefix `${` and the suffix `}`.
unfoldable pub whole_ref : String → Option String
unfolding drop_close
whole_ref [] = none
whole_ref (c ∷ []) = none
whole_ref (c ∷ d ∷ s) = if is_dollar c && is_open d then drop_close s else none
