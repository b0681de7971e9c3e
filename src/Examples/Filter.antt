-- ===== src/Examples/Filter.antt =====
-- A machine, an encoding, a network and a policy for the sandbox (sandbox/pkg/seccomp).
use Prim.Native.Char.{code}
use Prim.Native.String.{[], ◌∷◌, ◌++◌}
use text.Mathlib.TextLemmas.{nil-append, cons-append}
use mathlib.Core.List as L
use flowgent.Prelude.{
  ℕ, zero, suc, ◌+◌, String, true, false, Option, none, some, List, ◌==◌, ◌≡◌, ◌↔◌, refl, ap, ◌∙◌,
  arith, eqb, if◌then◌else◌,
}
use flowgent.Sandbox.Bpf.{
  Unix, SockFilter, Machine, drop, ld, ja, ret, build_bpf, off_nr, sock_type_arg,
}
use flowgent.Sandbox.Verdict.{verdict, exec-build_bpf}
use flowgent.Sandbox.Wire.{Base64, marshal_filter, decode_filter}
use flowgent.Sandbox.RoundTrip.{AllFit, decode_filter-marshal_filter}
use flowgent.Sandbox.Policy.{
  IpPort, NetworkPolicy, Filter, Net, resolve_entry, resolve_entries, filter_of_mode, build_filter,
  runs_directly,
}
use flowgent.Sandbox.Notifier.{allows_target}
use flowgent.Sandbox.Isolation.{
  IsNone, IsFilterOf, Permits, mode_of, notifier_of, runs_directly_iff, allows_target_iff,
}

-- The values of Linux.
abbrev linux : Unix
linux = record {
  ld_w_abs = 32;
  jmp_jeq_k = 21;
  jmp_ja = 5;
  ret_k = 6;
  ret_errno_base = 327680;
  ret_user_notif_value = 2143289344;
  ret_allow_value = 2147418112;
  eperm = 1;
}

-- The instructions ahead, of which the first so many are jumped over.
unfoldable run : ℕ → List SockFilter → ℕ → (ℕ → ℕ) → ℕ
run n L.[] a data_at = 0
run (suc n) (L.◌∷◌ i p) a data_at = run n p a data_at
run zero (L.◌∷◌ i p) a data_at = elim (eqb i.code 32) [
  | true ↦ run 0 p (data_at i.k) data_at
  | false ↦ elim (eqb i.code 21) [
    | true ↦ run (if eqb a i.k then i.jt else i.jf) p a data_at
    | false ↦ elim (eqb i.code 5) [ true ↦ run i.k p a data_at | false ↦ i.k ]
  ]
]

run-drop :
    (n : ℕ) (p : List SockFilter) (a : ℕ) (data_at : ℕ → ℕ)
    → run n p a data_at ≡ run 0 (drop linux n p) a data_at
unfolding run
run-drop zero p a data_at = refl
run-drop (suc n) L.[] a data_at = refl
run-drop (suc n) (L.◌∷◌ i p) a data_at = run-drop n p a data_at

abbrev kernel : Machine linux
unfolding run
kernel = record {
  exec = run 0;
  exec-ld = λ offset p a data_at. refl;
  exec-jeq = λ value jt jf p a data_at. run-drop (if eqb a value then jt else jf) p a data_at;
  exec-ja = λ jumps p a data_at. run-drop jumps p a data_at;
  exec-ret = λ value p a data_at. refl;
}

-- socket(AF_INET, SOCK_RAW, 0)
abbrev raw_socket : ℕ → ℕ
raw_socket offset = if eqb offset off_nr then 41 else if eqb offset sock_type_arg then 3 else 0

exec-build_bpf_example :
    kernel.exec (build_bpf linux "allowlist") 0 raw_socket
    ≡ verdict linux "allowlist" (raw_socket off_nr) (raw_socket sock_type_arg)
exec-build_bpf_example = exec-build_bpf linux kernel "allowlist" raw_socket 0

-- Each byte as so many letters a, and another letter behind them.
unfoldable letters : ℕ → String → String
letters zero rest = "b" ++ rest
letters (suc n) rest = "a" ++ letters n rest

unfoldable encode : List ℕ → String
encode L.[] = ""
encode (L.◌∷◌ n ns) = letters n (encode ns)

unfoldable decode : ℕ → String → Option (List ℕ)
decode acc [] = some L.[]
decode acc (c ∷ s) = elim (eqb (code c) b'a') [
  | true ↦ decode (suc acc) s
  | false ↦ elim (decode 0 s) [ none ↦ none | some ns ↦ some (L.◌∷◌ acc ns) ]
]

decode-letters :
    (acc n : ℕ) (rest : String) (ns : List ℕ)
    → decode 0 rest ≡ some ns
    → decode acc (letters n rest) ≡ some (L.◌∷◌ (acc + n) ns)
unfolding decode letters
decode-letters acc zero rest ns h =
    rw (cons-append) (rw (nil-append rest) (rw h (ap (λ k. some (L.◌∷◌ k ns)) (omega arith))))
decode-letters acc (suc n) rest ns h = rw (cons-append) (
    rw (nil-append (letters n rest))
      (decode-letters (suc acc) n rest ns h ∙ ap (λ k. some (L.◌∷◌ k ns)) (omega arith)))

decode-encode : (bytes : List ℕ) → decode 0 (encode bytes) ≡ some bytes
unfolding decode encode
decode-encode L.[] = refl
decode-encode (L.◌∷◌ n ns) =
    decode-letters 0 n (encode ns) ns (decode-encode ns) ∙ ap (λ k. some (L.◌∷◌ k ns)) (omega arith)

abbrev coding : Base64
coding = record {
  encode_to_string = encode;
  decode_string = decode 0;
  decode-encode = decode-encode;
}

abbrev program : List SockFilter
program = L.◌∷◌ (ja linux 1) (L.◌∷◌ (ret linux 2147418112) L.[])

program-AllFit : AllFit (L.◌∷◌ (ld linux 0) program)
program-AllFit = (
  record { code = omega arith; k = omega arith },
  (
    record { code = omega arith; k = omega arith },
    (record { code = omega arith; k = omega arith }, tt),
  ),
)

decode_filter-marshal_filter_example :
    decode_filter coding (marshal_filter coding (L.◌∷◌ (ld linux 0) program))
    ≡ some (L.◌∷◌ (ld linux 0) program)
decode_filter-marshal_filter_example =
    decode_filter-marshal_filter coding (ld linux 0) program program-AllFit

-- One host, at one address, on port 443.
abbrev net : Net
net = record {
  split_policy_entry = λ entry. some (entry, "443");
  atoi = λ s. some 443;
  lookup_ip4 = λ host.
      if host == "api"
      then some (L.◌∷◌ (L.◌∷◌ 10 (L.◌∷◌ 0 (L.◌∷◌ 0 (L.◌∷◌ 1 L.[])))) L.[])
      else none;
}

abbrev policy : NetworkPolicy
policy = record { mode = "allowlist"; allowed = L.◌∷◌ "api" L.[]; denied = L.[] }

abbrev target : IpPort
target = record { ip = L.◌∷◌ 10 (L.◌∷◌ 0 (L.◌∷◌ 0 (L.◌∷◌ 1 L.[]))); port = 443 }

abbrev filter : Filter
filter = record {
  fprog = build_bpf linux "allowlist";
  allowlist = L.◌∷◌ target L.[];
  denylist = L.[];
  mode = "allowlist";
}

filter_built : build_filter net linux (some policy) ≡ some filter
unfolding build_filter filter_of_mode resolve_entries resolve_entry
filter_built = refl

runs_directly_iff_example : (runs_directly (some filter) ≡ true) ↔ IsNone (some policy)
runs_directly_iff_example = runs_directly_iff net linux (some policy) filter filter_built

allows_target_iff_example :
    IsFilterOf net linux (mode_of policy) policy filter
    × ((allows_target (notifier_of filter) target ≡ true)
        ↔ Permits filter.allowlist filter.denylist target)
allows_target_iff_example = allows_target_iff net linux policy filter target filter_built
