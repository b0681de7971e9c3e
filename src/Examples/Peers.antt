-- ===== src/Examples/Peers.antt =====
-- Three pods that elect a leader and share keys (core/pkg/engine/discovery).
use flowgent.Prelude.{String, true, false, List, [], ◌∷◌, ◌≡◌, refl, Memᴰ}
use flowgent.Discovery.{Peer, leader_election}
use flowgent.Discovery.Order.{less}
use flowgent.Discovery.Laws.{leader_election_unique}

abbrev pod : String → Peer
pod name = record { name = name; is_ready = true }

abbrev others : List Peer
others = pod "jm-0" ∷ pod "jm-2" ∷ []

jm-0-leads : leader_election (pod "jm-1" ∷ others) (pod "jm-0") ≡ true
unfolding leader_election less
jm-0-leads = refl

leader_election_unique_example :
    (l : Peer) × Memᴰ l (pod "jm-1" ∷ others)
    × (leader_election (pod "jm-1" ∷ others) l ≡ true)
    × ((q : Peer) → Memᴰ q (pod "jm-1" ∷ others) → less q.name l.name ≡ false)
    × ((q : Peer) → leader_election (pod "jm-1" ∷ others) q ≡ true → q.name ≡ l.name)
leader_election_unique_example = leader_election_unique (pod "jm-1") others
