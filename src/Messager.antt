-- ===== src/Messager.antt =====
-- `LocalMessager` of messager/pkg/standalone.go: the broker of a single process. A handler is a number;
-- `Publish` returns the handlers that it calls, in order. Go's iteration order over the subscriptions
-- is unspecified; here it is the order of the first `Subscribe` of each topic.
pub mod Topic
pub mod Names
pub mod Routes
pub mod Laws
pub mod Delivery
use flowgent.Prelude.{
  ℕ, zero, suc, ◌+◌, String, Bool, Option, none, some, List, [], ◌∷◌, ◌++◌, ◌%◌, length,
  if◌then◌else◌,
}
use flowgent.Prelude.Dict.{Dict, get, put, get_or}
use flowgent.Messager.Topic.{split_topic, strip_share_prefix, is_shared_topic, topic_match}

pub record LocalMessager : Type 0 where
  pub subs : Option (Dict (List ℕ))
  pub next : Dict ℕ

-- Subscribe. Behind `Close` it writes to a nil map and panics, which is none.
unfoldable pub subscribe : LocalMessager → String → ℕ → Option LocalMessager
subscribe q topic handler = elim q.subs [
  | none ↦ none
  | some subs ↦
      some
        (record q { subs = some (put subs topic (get_or [] (get subs topic) ++ (handler ∷ []))) })
]

-- hs[idx]
unfoldable pub handler_at : List ℕ → ℕ → List ℕ
handler_at [] i = []
handler_at (h ∷ hs) zero = h ∷ []
handler_at (h ∷ hs) (suc i) = handler_at hs i

-- What one subscription that matches gets: a shared one with handlers the handler whose turn it is.
unfoldable pub deliver : Dict ℕ → String → List ℕ → Dict ℕ × List ℕ
unfolding handler_at
deliver next sub [] = (next, [])
deliver next sub (h ∷ hs) =
    if is_shared_topic sub
    then (let idx = get_or 0 (get next sub) % length (h ∷ hs) in
        (put next sub (idx + 1), handler_at (h ∷ hs) idx))
    else (next, h ∷ hs)

-- matchHandlersLocked over the subscriptions that are left.
unfoldable pub match_handlers : List String → Dict (List ℕ) → Dict ℕ → Dict ℕ × List ℕ
unfolding deliver
match_handlers parts [] next = (next, [])
match_handlers parts ((sub, hs) ∷ subs) next =
    let (next', called) =
      if topic_match (strip_share_prefix sub) parts then deliver next sub hs else (next, []) in
    let rest = match_handlers parts subs next' in (rest.0, called ++ rest.1)

-- Publish
unfoldable pub publish : LocalMessager → String → LocalMessager × List ℕ
unfolding match_handlers
publish q topic =
    let r = match_handlers (split_topic topic) (get_or [] q.subs) q.next in
    (record q { next = r.0 }, r.1)

-- Close
unfoldable pub close : LocalMessager → LocalMessager
close q = record q { subs = none }
