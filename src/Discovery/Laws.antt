-- ===== src/Discovery/Laws.antt =====
-- Who leads, and which pod owns a key (discovery.go).
use mathlib.Core.List.Memᴰ
use mathlib.Core.Bool.{true≢false}
use native.Mathlib.Nat.{mod-lt}
use flowgent.Prelude.{
  ℕ, zero, suc, ◌<◌, String, true, false, List, [], ◌∷◌, ◌≡◌, refl, sym, ◌∙◌, inl, inr, Memᴰ, arith,
  eq_iff, leb, Bool-cases,
}
use flowgent.Prelude.Int.{ℤ, pos, negsuc}
use flowgent.Discovery.{Peer, lowest, leader_election, hash_fnv64a, shard_index, total_of}
use flowgent.Discovery.Order.{less, less_irrefl, less_trans, not-less_trans}

-- A peer of the list whose name is `name`, with none below it.
pub record Leads (name : String) (peers : List Peer) : Type 0 where
  pub leader : Peer
  pub member : Memᴰ leader peers
  pub named : leader.name ≡ name
  pub least : (q : Peer) → Memᴰ q peers → less q.name name ≡ false

lower :
    (p q : Peer) (qs : List Peer) {name : String}
    → less q.name p.name ≡ true
    → Leads name (q ∷ qs)
    → Leads name (p ∷ q ∷ qs)
lower p q qs {name} e r = record {
  leader = r.leader;
  member = Memᴰ.tail r.member;
  named = r.named;
  least = go;
}
  where
    go : (x : Peer) → Memᴰ x (p ∷ q ∷ qs) → less x.name name ≡ false
    go x (Memᴰ.tail m) = r.least x m
    go x (Memᴰ.head f) = elim (Bool-cases (less p.name name)) [
      | inr n ↦ rw f n
      | inl y ↦
          absurd (true≢false (sym (less_trans q.name p.name name e y) ∙ r.least q (Memᴰ.head refl)))
    ]

kept :
    (p q : Peer) (qs : List Peer) {name : String}
    → less q.name p.name ≡ false
    → Leads name (p ∷ qs)
    → Leads name (p ∷ q ∷ qs)
kept p q qs {name} e r = record {
  leader = r.leader;
  member = member r.member;
  named = r.named;
  least = go;
}
  where
    member : {x : Peer} → Memᴰ x (p ∷ qs) → Memᴰ x (p ∷ q ∷ qs)
    member (Memᴰ.head f) = Memᴰ.head f
    member (Memᴰ.tail m) = Memᴰ.tail (Memᴰ.tail m)

    go : (x : Peer) → Memᴰ x (p ∷ q ∷ qs) → less x.name name ≡ false
    go x (Memᴰ.head f) = r.least x (Memᴰ.head f)
    go x (Memᴰ.tail (Memᴰ.tail m)) = r.least x (Memᴰ.tail m)
    go x (Memᴰ.tail (Memᴰ.head f)) = elim (Bool-cases (less q.name name)) [
      | inr n ↦ rw f n
      | inl y ↦
          absurd
            (true≢false (sym (not-less_trans q.name p.name name e y) ∙ r.least p (Memᴰ.head refl)))
    ]

lowest-Leads : (p : Peer) (ps : List Peer) → Leads (lowest p.name ps) (p ∷ ps)
unfolding lowest
lowest-Leads p [] = record { leader = p; member = Memᴰ.head refl; named = refl; least = alone }
  where
    alone : (q : Peer) → Memᴰ q (p ∷ []) → less q.name p.name ≡ false
    alone q (Memᴰ.head e) = rw e (less_irrefl p.name)
    alone q (Memᴰ.tail m) = absurd (Memᴰ.not-nil m)
lowest-Leads p (q ∷ qs) = elim (Bool-cases (less q.name p.name)) [
  | inl e ↦ rw (e, lowest) (lower p q qs e (lowest-Leads q qs))
  | inr e ↦ rw (e, lowest) (kept p q qs e (lowest-Leads p qs))
]

-- The lowest name is that of a peer of the list, with no name below it.
leader_election-lowest :
    (p : Peer) (ps : List Peer) (self : Peer)
    → leader_election (p ∷ ps) self ≡ true
    → self.name ≡ lowest p.name ps
unfolding leader_election
leader_election-lowest p ps self h = sym ((eq_iff (lowest p.name ps) self.name).0 h)

-- Of the peers of a list that is not empty one leads, no name is below its name, and whoever leads by
-- the same list has its name.
pub leader_election_unique :
    (p : Peer) (ps : List Peer)
    → (l : Peer) × Memᴰ l (p ∷ ps)
      × (leader_election (p ∷ ps) l ≡ true)
      × ((q : Peer) → Memᴰ q (p ∷ ps) → less q.name l.name ≡ false)
      × ((q : Peer) → leader_election (p ∷ ps) q ≡ true → q.name ≡ l.name)
unfolding leader_election
leader_election_unique p ps =
    let r = lowest-Leads p ps in
    (
      r.leader,
      r.member,
      (eq_iff (lowest p.name ps) r.leader.name).1 (sym r.named),
      λ q m. rw r.named (r.least q m),
      λ q h. leader_election-lowest p ps q h ∙ sym r.named,
    )

-- The shard of a key is below the number of pods, where a number that is not positive counts as one.
pub shard_index-lt : (key : List ℕ) (total : ℤ) → shard_index key total < total_of total
unfolding shard_index total_of
shard_index-lt key (negsuc n) = omega arith
shard_index-lt key (pos zero) = omega arith
shard_index-lt key (pos (suc n)) = elim (Bool-cases (leb (suc n) 1)) [
  | inl e ↦ rw (e, shard_index) (omega arith)
  | inr e ↦ rw (e, shard_index) (mod-lt (hash_fnv64a key) (omega arith))
]
