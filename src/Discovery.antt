-- ===== src/Discovery.antt =====
-- `LeaderElection`, `ShardIndex` and `hashFnv64a` of core/pkg/engine/discovery/discovery.go, the
-- filter of `DiscoverPeers` and the `IsLeader` of k8s.go, and the static client (static.go). A key to
-- be hashed is the list of its bytes.
pub mod Laws
pub mod Order
use Prim.Native.Nat.{bit_xor}
use Prim.Native.String.{◌++◌ as str_append}
use flowgent.Prelude.{
  ℕ, zero, suc, ◌+◌, ◌*◌, ◌%◌, ◌^◌, String, Bool, true, false, Option, none, some, List, [], ◌∷◌,
  ◌==◌, ◌||◌, leb, ltb, select, if◌then◌else◌,
}
use flowgent.Prelude.Int.{ℤ, pos, negsuc, is_positive}
use flowgent.Discovery.Order.{less}

pub record Peer : Type 0 where
  pub name : String
  pub is_ready : Bool

-- The loop of `LeaderElection` over the peers that are left.
unfoldable pub lowest : String → List Peer → String
lowest leader [] = leader
lowest leader (p ∷ ps) = lowest (if less p.name leader then p.name else leader) ps

-- LeaderElection
unfoldable pub leader_election : List Peer → Peer → Bool
unfolding lowest
leader_election [] self = false
leader_election (p ∷ ps) self = lowest p.name ps == self.name

-- IsLeader of the K8sDiscoveryClient, from the peers that it discovers.
unfoldable pub is_leader : List Peer → Peer → Bool
unfolding leader_election
is_leader peers self = leader_election (select (λ (p : Peer). p.is_ready) peers) self

-- hashFnv64a, from the hash `h` of the bytes before.
unfoldable pub hash_bytes : ℕ → List ℕ → ℕ
hash_bytes h [] = h
hash_bytes h (b ∷ bs) = hash_bytes (bit_xor h b * 1099511628211 % 2 ^ 64) bs

unfoldable pub hash_fnv64a : List ℕ → ℕ
unfolding hash_bytes
hash_fnv64a key = hash_bytes 14695981039346656037 key

-- ShardIndex
unfoldable pub shard_index : List ℕ → ℤ → ℕ
unfolding hash_fnv64a
shard_index key (negsuc n) = 0
shard_index key (pos n) = if leb n 1 then 0 else hash_fnv64a key % n

pub record StaticDiscoveryClient : Type 0 where
  pub self : Peer
  pub total_pods : ℕ
  pub pod_index : ℕ
  pub peers : List Peer

-- The peers controller-i to controller-(n - 1); `show` is fmt.Sprintf's %d.
unfoldable pub controllers : (ℕ → String) → ℕ → ℕ → List Peer
controllers show i zero = []
controllers show i (suc n) =
    record { name = str_append "controller-" (show i); is_ready = true }
    ∷ controllers show (suc i) n

-- The number of pods, and the index among them, that the configuration gives.
unfoldable pub total_of : ℤ → ℕ
total_of (negsuc n) = 1
total_of (pos zero) = 1
total_of (pos (suc n)) = suc n

unfoldable pub index_of : ℤ → ℕ → ℕ
index_of (negsuc n) total = 0
index_of (pos n) total = if leb total n then 0 else n

-- NewStaticDiscoveryClient; `pod_name` is the variable POD_NAME of the environment.
unfoldable pub new_static_client : (ℕ → String) → String → ℤ → ℤ → StaticDiscoveryClient
unfolding controllers total_of index_of
new_static_client show pod_name pod_total pod_index =
    let total = total_of pod_total in
    let index = index_of pod_index total in
    record {
      self = record {
        name = if pod_name == "" then str_append "controller-" (show index) else pod_name;
        is_ready = true;
      };
      total_pods = total;
      pod_index = index;
      peers = controllers show 0 total;
    }
