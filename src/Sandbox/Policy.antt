-- ===== src/Sandbox/Policy.antt =====
-- `BuildFilter` and `resolveEntries` of sandbox/pkg/seccomp/seccomp.go, and the choice that
-- `ScriptCmd` of exec.go makes. net/url, net and strconv are the record `Net`.
use flowgent.Prelude.{
  ℕ, String, Bool, true, Option, none, some, List, [], ◌∷◌, ◌++◌, ◌==◌, ◌&&◌, is_empty, leb,
  if◌then◌else◌,
}
use flowgent.Sandbox.Bpf.{Unix, SockFilter, build_bpf, is_notifying}

-- ipPort: the four bytes of an address, and a port.
pub record IpPort : Type 0 where
  pub ip : List ℕ
  pub port : ℕ

-- model.NetworkPolicy
pub record NetworkPolicy : Type 0 where
  pub mode : String
  pub allowed : List String
  pub denied : List String

-- A filter; no program is a nil fprog.Filter.
pub record Filter : Type 0 where
  pub fprog : List SockFilter
  pub allowlist : List IpPort
  pub denylist : List IpPort
  pub mode : String

-- splitPolicyEntry with url.Parse and net.SplitHostPort; strconv.Atoi, where a negative number is none
-- too; and the IPv4 addresses that net.LookupIP finds.
pub record Net : Type 0 where
  pub split_policy_entry : String → Option (String × String)
  pub atoi : String → Option ℕ
  pub lookup_ip4 : String → Option (List (List ℕ))

module _ (net : Net) where
  open net use {split_policy_entry, atoi, lookup_ip4}

  abbrev pub with_port : ℕ → List (List ℕ) → List IpPort
  with_port port [] = []
  with_port port (ip ∷ ips) = record { ip = ip; port = port } ∷ with_port port ips

  -- One entry: split it, read a port between 1 and 65535, look the host up.
  unfoldable pub resolve_entry : String → Option (List IpPort)
  resolve_entry entry = elim (split_policy_entry entry) [
    | none ↦ none
    | some (host, ps) ↦ elim (atoi ps) [
      | none ↦ none
      | some port ↦
          if leb 1 port && leb port 65535
          then elim (lookup_ip4 host) [ none ↦ none | some ips ↦ some (with_port port ips) ]
          else none
    ]
  ]

  -- resolveEntries: the first error ends it.
  unfoldable pub resolve_entries : List String → Option (List IpPort)
  unfolding resolve_entry
  resolve_entries [] = some []
  resolve_entries (entry ∷ entries) = elim (resolve_entry entry) [
    | none ↦ none
    | some targets ↦ elim (resolve_entries entries) [
      | none ↦ none
      | some rest ↦ some (targets ++ rest)
    ]
  ]

  module _ (unix : Unix) where
    -- The switch of BuildFilter on the mode.
    unfoldable pub filter_of_mode : String → NetworkPolicy → Option Filter
    unfolding resolve_entries
    filter_of_mode mode policy =
        if mode == "none"
        then some
            (record { fprog = build_bpf unix mode; allowlist = []; denylist = []; mode = mode })
        else if mode == "allowlist"
        then elim (resolve_entries policy.allowed) [
          | none ↦ none
          | some list ↦
              some (record {
                fprog = build_bpf unix mode;
                allowlist = list;
                denylist = [];
                mode = mode;
              })
        ]
        else if mode == "denylist"
        then elim (resolve_entries policy.denied) [
          | none ↦ none
          | some list ↦
              some (record {
                fprog = build_bpf unix mode;
                allowlist = [];
                denylist = list;
                mode = mode;
              })
        ]
        else none

    -- BuildFilter
    unfoldable pub build_filter : Option NetworkPolicy → Option Filter
    unfolding filter_of_mode
    build_filter none = some (record { fprog = []; allowlist = []; denylist = []; mode = "none" })
    build_filter (some policy) =
        filter_of_mode (if policy.mode == "" then "none" else policy.mode) policy

-- NeedsNotifier
abbrev pub needs_notifier : Filter → Bool
needs_notifier f = is_notifying f.mode

-- The first test of ScriptCmd: the script runs as it is, with no filter.
unfoldable pub runs_directly : Option Filter → Bool
runs_directly none = true
runs_directly (some f) = f.mode == "none" && (is_empty f.allowlist && is_empty f.denylist)
