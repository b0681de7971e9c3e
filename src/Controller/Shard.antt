-- ===== src/Controller/Shard.antt =====
-- `getPeers`, `ownsFlow` and the names of namespaces and deployments in controller.go. The bytes of a
-- text are a parameter.
use Prim.Native.String.{◌++◌ as str_append}
use flowgent.Prelude.{
  ℕ, suc, String, Bool, true, false, List, [], ◌∷◌, ◌==◌, ◌&&◌, eqb, length, if◌then◌else◌,
}
use flowgent.Prelude.Int.{pos}
use flowgent.Discovery.{Peer, shard_index}

-- The index of the first peer with the name of this pod, or 0.
unfoldable pub self_index : List Peer → Peer → ℕ → ℕ
self_index [] self i = 0
self_index (p ∷ ps) self i =
    let rest = self_index ps self (suc i) in if p.name == self.name then i else rest

-- The loop of ownsFlow: is a peer of this name at the index of the shard?
unfoldable pub is_at : ℕ → ℕ → List Peer → String → Bool
is_at shard i [] name = false
is_at shard i (p ∷ ps) name =
    let rest = is_at shard (suc i) ps name in if p.name == name && eqb i shard then true else rest

module _ (bytes : String → List ℕ) where
  -- ownsFlow: without peers everything is owned.
  unfoldable pub owns_flow : List Peer → Peer → String → Bool
  unfolding is_at
  owns_flow [] self flow_id = true
  owns_flow (p ∷ ps) self flow_id =
      is_at (shard_index (bytes flow_id) (pos (length (p ∷ ps)))) 0 (p ∷ ps) self.name

-- dispatchNamespace, defaultNamespacePrefix and applicationNamespace.
unfoldable pub dispatch_namespace : String → String → String
dispatch_namespace default spec_namespace =
    if spec_namespace == "" then (if default == "" then "default" else default) else spec_namespace

unfoldable pub default_namespace_prefix : String → String
default_namespace_prefix prefix = if prefix == "" then "flowgent-" else prefix

unfoldable pub application_namespace : String → String → String → String → String
unfolding dispatch_namespace default_namespace_prefix
application_namespace prefix default k8s_namespace spec_namespace =
    if k8s_namespace == ""
    then str_append (default_namespace_prefix prefix) (dispatch_namespace default spec_namespace)
    else k8s_namespace
