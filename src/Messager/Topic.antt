-- ===== src/Messager/Topic.antt =====
-- The topics of standalone.go: `splitTopic`, `topicMatch`, `stripSharePrefix`, and `isSharedTopic` of
-- mqtt.go.
use Prim.Native.String.{[], ◌∷◌}
use Prim.Native.Char.{code}
use flowgent.Prelude.{
  String, Bool, true, false, Option, none, some, List, ◌==◌, ◌&&◌, ◌||◌, not, eqb, if◌then◌else◌,
}
use flowgent.Prelude.Text.{cut_prefix}
use mathlib.Core.List as L

-- A first character goes to the first part.
unfoldable pub split_slash : String → List String
split_slash [] = L.◌∷◌ "" L.[]
split_slash (c ∷ s) =
    let rest = split_slash s in
    if eqb (code c) b'/'
    then L.◌∷◌ "" rest
    else elim rest [ L.[] ↦ L.[] | L.◌∷◌ part parts ↦ L.◌∷◌ (c ∷ part) parts ]

-- splitTopic
unfoldable pub split_topic : String → List String
unfolding split_slash
split_topic [] = L.[]
split_topic (c ∷ s) = split_slash (c ∷ s)

-- The text behind the first slash.
unfoldable pub after_slash : String → Option String
after_slash [] = none
after_slash (c ∷ s) = if eqb (code c) b'/' then some s else after_slash s

-- stripSharePrefix
unfoldable pub strip_share_prefix : String → String
unfolding after_slash
strip_share_prefix topic = elim (cut_prefix topic "$share/") [
  | none ↦ topic
  | some rest ↦ elim (after_slash rest) [ none ↦ topic | some t ↦ t ]
]

-- isSharedTopic
unfoldable pub is_shared_topic : String → Bool
is_shared_topic topic = elim (cut_prefix topic "$share/") [
  | none ↦ false
  | some rest ↦ not (rest == "")
]

-- The loop of `topicMatch` with its test of the lengths: a `+` matches any level.
unfoldable pub parts_match : List String → List String → Bool
parts_match L.[] L.[] = true
parts_match L.[] (L.◌∷◌ q qs) = false
parts_match (L.◌∷◌ p ps) L.[] = false
parts_match (L.◌∷◌ p ps) (L.◌∷◌ q qs) = (p == "+" || p == q) && parts_match ps qs

-- topicMatch
unfoldable pub topic_match : String → List String → Bool
unfolding parts_match
topic_match sub_pattern pub_parts = parts_match (split_topic sub_pattern) pub_parts
