-- ===== src/Controller/Owner.antt =====
-- Who owns a flow: the shards of Shard over the hash of Discovery.
use flowgent.Prelude.{
  ℕ, suc, ◌+◌, ◌≤◌, ◌<◌, String, true, false, List, [], ◌∷◌, ◌==◌, ◌≡◌, refl, ◌∙◌, length, arith,
  Memᴰ, eqb, inl, inr, Bool-cases, eq_iff, eq_refl,
}
use flowgent.Prelude.Int.{pos}
use flowgent.Discovery.{Peer, shard_index, total_of}
use flowgent.Discovery.Laws.{shard_index-lt}
use flowgent.Controller.Shard.{is_at, owns_flow}

is_at-past :
    (shard i : ℕ) (ps : List Peer) (name : String) → shard < i → is_at shard i ps name ≡ false
unfolding is_at
is_at-past shard i [] name h = refl
is_at-past shard i (p ∷ ps) name h = ground (arith, is_at-past shard (suc i) ps name (omega arith))

-- The peer at the index of the shard is the one whose name passes.
is_at-holder :
    (shard i : ℕ) (ps : List Peer)
    → i ≤ shard
    → shard < i + length ps
    → (p : Peer) × Memᴰ p ps × ((name : String) → is_at shard i ps name ≡ (p.name == name))
unfolding is_at
is_at-holder shard i [] h k = absurd (omega arith)
is_at-holder shard i (p ∷ ps) h k = elim (Bool-cases (eqb i shard)) [
  | inl e ↦
      (p, Memᴰ.head refl, λ name. ground (arith, is_at-past shard (suc i) ps name (ground arith)))
  | inr e ↦
      let (q, m, same) = is_at-holder shard (suc i) ps (ground arith) (omega arith) in
      (q, Memᴰ.tail m, λ name. ground (arith, same name))
]

-- In a list of peers that is not empty one peer owns the flow, and a pod that takes the same list
-- owns it only if it has that peer's name.
pub owns_flow_unique :
    (bytes : String → List ℕ) (p : Peer) (ps : List Peer) (flow_id : String)
    → (owner : Peer) × Memᴰ owner (p ∷ ps)
      × (owns_flow bytes (p ∷ ps) owner flow_id ≡ true)
      × ((self : Peer) → owns_flow bytes (p ∷ ps) self flow_id ≡ true → owner.name ≡ self.name)
unfolding owns_flow total_of
owns_flow_unique bytes p ps flow_id =
    let n = length (p ∷ ps) in
    let (owner, m, same) =
      is_at-holder (shard_index (bytes flow_id) (pos n)) 0 (p ∷ ps) (omega arith)
        (omega (arith, shard_index-lt (bytes flow_id) (pos n))) in
    (
      owner,
      m,
      same owner.name ∙ eq_refl owner.name,
      λ self h. ground (arith, same self.name, eq_iff owner.name self.name),
    )
