-- ===== src/Messager/Delivery.antt =====
-- The subscriptions that a `Publish` of standalone.go reaches.
use mathlib.Core.List.Memᴰ
use native.Mathlib.Nat.{mod-lt}
use flowgent.Prelude.{
  ℕ, suc, ◌%◌, String, false, List, [], ◌∷◌, ◌++◌, ◌≡◌, refl, sym, ap, subst, ◌⊎◌, inl, inr, Memᴰ,
  arith, length, Bool-cases,
}
use flowgent.Prelude.Dict.{Dict, get, get_or}
use flowgent.Messager.Topic.{split_topic, strip_share_prefix, is_shared_topic, topic_match}
use flowgent.Messager.{LocalMessager, deliver, match_handlers, publish}
use flowgent.Messager.Laws.{Covers, Covers-of_match, match_of_Covers, handler_at-mem}

-- A subscription with its handlers matches a topic.
abbrev pub Reaches : String → String → Type 0
Reaches sub topic = Covers (split_topic (strip_share_prefix sub)) (split_topic topic)

deliver_plain :
    (next : Dict ℕ) (sub : String) (hs : List ℕ)
    → is_shared_topic sub ≡ false
    → (deliver next sub hs).1 ≡ hs
unfolding deliver
deliver_plain next sub [] f = refl
deliver_plain next sub (h ∷ hs) f = rw f refl

module _ {x : ℕ} where
  left_of_append : {l : List ℕ} (r : List ℕ) → Memᴰ x l → Memᴰ x (l ++ r)
  left_of_append r (Memᴰ.head q) = Memᴰ.head q
  left_of_append r (Memᴰ.tail m) = Memᴰ.tail (left_of_append r m)

  right_of_append : (l : List ℕ) {r : List ℕ} → Memᴰ x r → Memᴰ x (l ++ r)
  right_of_append [] m = m
  right_of_append (y ∷ l) m = Memᴰ.tail (right_of_append l m)

  of_append : (l : List ℕ) {r : List ℕ} → Memᴰ x (l ++ r) → Memᴰ x l ⊎ Memᴰ x r
  of_append [] m = inr m
  of_append (y ∷ l) (Memᴰ.head q) = inl (Memᴰ.head q)
  of_append (y ∷ l) (Memᴰ.tail m) = elim (of_append l m) [
    | inl i ↦ inl (Memᴰ.tail i)
    | inr i ↦ inr i
  ]

  of_one : {y : ℕ} {hs : List ℕ} → Memᴰ y hs → Memᴰ x (y ∷ []) → Memᴰ x hs
  of_one {y} {hs} m (Memᴰ.head q) = subst (λ z. Memᴰ z hs) (sym q) m
  of_one m (Memᴰ.tail i) = absurd (Memᴰ.not-nil i)

  deliver-mem :
      (next : Dict ℕ) (sub : String) (hs : List ℕ) → Memᴰ x (deliver next sub hs).1 → Memᴰ x hs
  unfolding deliver
  deliver-mem next sub [] m = m
  deliver-mem next sub (h ∷ hs) m =
      let i = get_or 0 (get next sub) % suc (length hs) in
      let (y, e, n) = handler_at-mem (h ∷ hs) i (mod-lt _ (omega arith)) in
      elim (Bool-cases (is_shared_topic sub)) [
        | inr s ↦ subst (λ l. Memᴰ x l) (rw (s, deliver) refl) m
        | inl s ↦ of_one n (subst (λ l. Memᴰ x l) (rw (s, deliver) e) m)
      ]

  called_from :
      (topic : String) (subs : Dict (List ℕ)) (next : Dict ℕ)
      → Memᴰ x (match_handlers (split_topic topic) subs next).1
      → (sub : String) × (hs : List ℕ) × Memᴰ (sub, hs) subs × Reaches sub topic × Memᴰ x hs
  unfolding match_handlers topic_match
  called_from topic [] next m = absurd (Memᴰ.not-nil m)
  called_from topic ((sub, hs) ∷ subs) next m =
      elim (Bool-cases (topic_match (strip_share_prefix sub) (split_topic topic))) [
        | inl t ↦
            let d = deliver next sub hs in
            elim (of_append d.1 (subst (λ l. Memᴰ x l) (rw (t, match_handlers) refl) m)) [
              | inl i ↦ (sub, hs, Memᴰ.head refl, Covers-of_match _ _ t, deliver-mem next sub hs i)
              | inr i ↦
                  let (s', hs', n, c, j) = called_from topic subs d.0 i in
                  (s', hs', Memᴰ.tail n, c, j)
            ]
        | inr t ↦
            let (s', hs', n, c, j) =
              called_from topic subs next (subst (λ l. Memᴰ x l) (rw (t, match_handlers) refl) m) in
            (s', hs', Memᴰ.tail n, c, j)
      ]

  calls_each :
      (topic sub : String) (hs : List ℕ) (subs : Dict (List ℕ)) (next : Dict ℕ)
      → Memᴰ (sub, hs) subs
      → Reaches sub topic
      → is_shared_topic sub ≡ false
      → Memᴰ x hs
      → Memᴰ x (match_handlers (split_topic topic) subs next).1
  unfolding match_handlers topic_match deliver
  calls_each topic sub hs [] next n c f m = absurd (Memᴰ.not-nil n)
  calls_each topic sub hs ((s', hs') ∷ subs) next (Memᴰ.head q) c f m =
      let qs : sub ≡ s' = ap (λ (z : String × List ℕ). z.0) q in
      let qh : hs ≡ hs' = ap (λ (z : String × List ℕ). z.1) q in
      let t = match_of_Covers _ _ (subst (λ z. Reaches z topic) qs c) in
      let d = deliver_plain next s' hs' (subst (λ z. is_shared_topic z ≡ false) qs f) in
      rw (t, match_handlers)
        (left_of_append _ (subst (λ l. Memᴰ x l) (sym d) (subst (λ l. Memᴰ x l) qh m)))
  calls_each topic sub hs ((s', hs') ∷ subs) next (Memᴰ.tail n) c f m =
      elim (Bool-cases (topic_match (strip_share_prefix s') (split_topic topic))) [
        | inl t ↦
            rw (t, match_handlers) (right_of_append _ (calls_each topic sub hs subs _ n c f m))
        | inr t ↦ rw (t, match_handlers) (calls_each topic sub hs subs next n c f m)
      ]

-- `Publish` calls handlers of subscriptions that match the topic only, and of each subscription that
-- matches and is not shared it calls every handler. A pattern matches level by level, where a `+`
-- covers any level.
pub publish-Reaches :
    (q : LocalMessager) (topic : String) (x : ℕ)
    → (Memᴰ x (publish q topic).1
        → (sub : String) × (hs : List ℕ) × Memᴰ (sub, hs) (get_or [] q.subs)
          × Reaches sub topic
          × Memᴰ x hs)
      × ((sub : String) (hs : List ℕ)
          → Memᴰ (sub, hs) (get_or [] q.subs)
          → Reaches sub topic
          → is_shared_topic sub ≡ false
          → Memᴰ x hs
          → Memᴰ x (publish q topic).1)
unfolding publish
publish-Reaches q topic x = (
  called_from topic (get_or [] q.subs) q.next,
  λ sub hs n c f m. calls_each topic sub hs (get_or [] q.subs) q.next n c f m,
)
