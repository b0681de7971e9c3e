-- ===== src/Sandbox/Notifier.antt =====
-- `checkTarget` of sandbox/pkg/seccomp/notifier.go, and the part of `readSockaddr` that reads the 16
-- bytes of a sockaddr_in. The memory of the child is an argument.
use flowgent.Prelude.{
  ℕ, ◌+◌, ◌*◌, Bool, true, false, Option, none, some, List, [], ◌∷◌, ◌&&◌, eqb, if◌then◌else◌,
}
use flowgent.Sandbox.Policy.{IpPort}

pub record Notifier : Type 0 where
  pub allowlist : List IpPort
  pub denylist : List IpPort

-- e.ip == ip
unfoldable pub same_bytes : List ℕ → List ℕ → Bool
same_bytes [] [] = true
same_bytes [] (y ∷ ys) = false
same_bytes (x ∷ xs) [] = false
same_bytes (x ∷ xs) (y ∷ ys) = eqb x y && same_bytes xs ys

-- The loop over a list: is the target on it?
unfoldable pub has_target : List IpPort → IpPort → Bool
unfolding same_bytes
has_target [] t = false
has_target (e ∷ es) t = if same_bytes e.ip t.ip && eqb e.port t.port then true else has_target es t

-- The address family AF_INET, little endian, then the port, big endian, then the address.
unfoldable pub read_sockaddr : ℕ → List ℕ → Option IpPort
read_sockaddr af_inet (f0 ∷ f1 ∷ p0 ∷ p1 ∷ a ∷ b ∷ c ∷ d ∷ rest) =
    if eqb (f0 + f1 * 256) af_inet
    then some (record { ip = a ∷ b ∷ c ∷ d ∷ []; port = p0 * 256 + p1 })
    else none
read_sockaddr af_inet _ = none

-- The switch of checkTarget: whether the connection is allowed; otherwise it fails with EPERM.
unfoldable pub allows_target : Notifier → IpPort → Bool
unfolding has_target
allows_target n t = if eqb t.port 53 then true else elim n.allowlist [
  | e ∷ es ↦ has_target (e ∷ es) t
  | [] ↦ elim n.denylist [ e ∷ es ↦ if has_target (e ∷ es) t then false else true | [] ↦ false ]
]

-- checkTarget, with the 16 bytes at the address, if they can be read.
unfoldable pub check_target : ℕ → Notifier → ℕ → Option (List ℕ) → Bool
unfolding allows_target read_sockaddr
check_target af_inet n sockaddr_ptr memory = if eqb sockaddr_ptr 0 then false else elim memory [
  | none ↦ false
  | some raw ↦ elim (read_sockaddr af_inet raw) [ none ↦ false | some t ↦ allows_target n t ]
]
