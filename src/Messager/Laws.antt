-- ===== src/Messager/Laws.antt =====
-- Which handlers `Publish` of standalone.go calls.
use native.Mathlib.Nat.{mod-add-mod, mod-lt}
use flowgent.Prelude.{
  ℕ, zero, suc, ◌+◌, ◌<◌, ◌%◌, String, true, List, [], ◌∷◌, ◌≡◌, refl, ap, ◌∙◌, inl, inr, Memᴰ,
  ◌==◌, arith, eq_iff, eq_refl, length, Bool-cases,
}
use flowgent.Prelude.Dict.{Dict, get, get_or, get-put}
use flowgent.Messager.Topic.{is_shared_topic, parts_match}
use flowgent.Messager.{handler_at, deliver}

-- The levels of a pattern against those of a topic.
pub data Covers : List String → List String → Type 0 where
  both_end : Covers [] []
  wildcard : {q : String} {ps qs : List String} → Covers ps qs → Covers ("+" ∷ ps) (q ∷ qs)
  same : {p : String} {ps qs : List String} → Covers ps qs → Covers (p ∷ ps) (p ∷ qs)

pub Covers-of_match : (ps qs : List String) → parts_match ps qs ≡ true → Covers ps qs
unfolding parts_match
Covers-of_match [] [] h = both_end
Covers-of_match [] (q ∷ qs) h = absurd (cc)
Covers-of_match (p ∷ ps) [] h = absurd (cc)
Covers-of_match (p ∷ ps) (q ∷ qs) h = elim (Bool-cases (p == "+")) [
  | inl e ↦ rw ((eq_iff p "+").0 e) (wildcard (Covers-of_match ps qs (ground arith)))
  | inr e ↦ elim (Bool-cases (p == q)) [
    | inl f ↦ rw ((eq_iff p q).0 f) (same (Covers-of_match ps qs (ground arith)))
    | inr f ↦ absurd (ground arith)
  ]
]

pub match_of_Covers : (ps qs : List String) → Covers ps qs → parts_match ps qs ≡ true
unfolding parts_match
match_of_Covers _ _ both_end = refl
match_of_Covers _ _ (wildcard c) = ground (arith, match_of_Covers _ _ c)
match_of_Covers _ _ (same {p} c) = ground (arith, match_of_Covers _ _ c, eq_refl p)

pub handler_at-mem :
    (hs : List ℕ) (i : ℕ) → i < length hs → (h : ℕ) × (handler_at hs i ≡ h ∷ []) × Memᴰ h hs
unfolding handler_at
handler_at-mem [] i lt = absurd (omega arith)
handler_at-mem (h ∷ hs) zero lt = (h, refl, Memᴰ.head refl)
handler_at-mem (h ∷ hs) (suc i) lt =
    let (x, e, m) = handler_at-mem hs i (omega arith) in (x, e, Memᴰ.tail m)

module _ (sub : String) (h : ℕ) (hs : List ℕ) (shared : is_shared_topic sub ≡ true) where
  -- The counters behind `k` messages to the subscription.
  unfoldable pub after : Dict ℕ → ℕ → Dict ℕ
  after next zero = next
  after next (suc k) = (deliver (after next k) sub (h ∷ hs)).0

  turn :
      (next : Dict ℕ) (k : ℕ)
      → get_or 0 (get (after next k) sub) % suc (length hs)
        ≡ (get_or 0 (get next sub) + k) % suc (length hs)
  unfolding after deliver
  turn next zero = ap (λ n. n % suc (length hs)) (omega arith)
  turn next (suc k) =
      let cur = get_or 0 (get (after next k) sub) in
      let c = get_or 0 (get next sub) in
      let n = suc (length hs) in
      let step : get_or 0 (get (after next (suc k)) sub) ≡ cur % n + 1 =
        rw (shared, after, deliver, get-put, eq_refl sub) refl in
      rw (step, turn next k) (mod-add-mod (c + k) n 1 ∙ ap (λ x. x % n) (omega arith))

  -- The messages to a shared subscription go round its handlers: message `k` behind some state of the
  -- counters is delivered to one handler, at position c + k modulo their number, for a counter c.
  pub deliver-turn :
      (next : Dict ℕ) (k : ℕ)
      → let called = (deliver (after next k) sub (h ∷ hs)).1 in
        (called ≡ handler_at (h ∷ hs) ((get_or 0 (get next sub) + k) % suc (length hs)))
        × ((x : ℕ) × (called ≡ x ∷ []) × Memᴰ x (h ∷ hs))
  unfolding deliver
  deliver-turn next k =
      let (x, e, m) =
        handler_at-mem (h ∷ hs) (get_or 0 (get (after next k) sub) % suc (length hs))
          (mod-lt _ (omega arith)) in
      (
        rw (shared, deliver) (ap (handler_at (h ∷ hs)) (turn next k)),
        (x, rw (shared, deliver) e, m),
      )
