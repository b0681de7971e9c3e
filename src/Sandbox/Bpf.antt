-- ===== src/Sandbox/Bpf.antt =====
-- `buildBPF` of sandbox/pkg/seccomp/bpf.go. The instruction codes and return values of
-- golang.org/x/sys/unix are the record `Unix`, the kernel's machine is the record `Machine`.
use Prim.Native.Nat.{bit_or}
use flowgent.Prelude.{
  ℕ, zero, suc, String, Bool, List, [], ◌∷◌, ◌++◌, ◌≡◌, ◌==◌, ◌||◌, eqb, if◌then◌else◌,
}

-- unix.SockFilter
pub record SockFilter : Type 0 where
  pub code : ℕ
  pub jt : ℕ
  pub jf : ℕ
  pub k : ℕ

-- BPF_LD|BPF_W|BPF_ABS, BPF_JMP|BPF_JEQ|BPF_K, BPF_JMP|BPF_JA, BPF_RET|BPF_K, the SECCOMP_RET_ values
-- and EPERM.
pub record Unix : Type 0 where
  pub ld_w_abs : ℕ
  pub jmp_jeq_k : ℕ
  pub jmp_ja : ℕ
  pub ret_k : ℕ
  pub ret_errno_base : ℕ
  pub ret_user_notif_value : ℕ
  pub ret_allow_value : ℕ
  pub eperm : ℕ

abbrev pub sys_socket : ℕ
sys_socket = 41

abbrev pub sys_connect : ℕ
sys_connect = 42

abbrev pub sys_sendto : ℕ
sys_sendto = 44

abbrev pub sys_sendmsg : ℕ
sys_sendmsg = 46

abbrev pub sys_sendmmsg : ℕ
sys_sendmmsg = 307

abbrev pub sys_bpf : ℕ
sys_bpf = 321

abbrev pub sys_init_module : ℕ
sys_init_module = 175

abbrev pub sys_kexec_load : ℕ
sys_kexec_load = 246

abbrev pub sys_perf_event_open : ℕ
sys_perf_event_open = 298

-- The offsets in seccomp_data, and SOCK_RAW.
abbrev pub off_nr : ℕ
off_nr = 0

abbrev pub sock_type_arg : ℕ
sock_type_arg = 24

abbrev pub sys_sock_raw : ℕ
sys_sock_raw = 3

-- mode == "allowlist" || mode == "denylist"
abbrev pub is_notifying : String → Bool
is_notifying mode = mode == "allowlist" || mode == "denylist"

module _ (unix : Unix) where
  open unix use {
    ld_w_abs, jmp_jeq_k, jmp_ja, ret_k, ret_errno_base, ret_user_notif_value, ret_allow_value,
    eperm,
  }

  abbrev pub ld : ℕ → SockFilter
  ld offset = record { code = ld_w_abs; jt = 0; jf = 0; k = offset }

  abbrev pub jeq : ℕ → ℕ → ℕ → SockFilter
  jeq value jt jf = record { code = jmp_jeq_k; jt = jt; jf = jf; k = value }

  abbrev pub ja : ℕ → SockFilter
  ja jumps = record { code = jmp_ja; jt = 0; jf = 0; k = jumps }

  abbrev pub ret : ℕ → SockFilter
  ret value = record { code = ret_k; jt = 0; jf = 0; k = value }

  -- SECCOMP_RET_ERRNO | EPERM
  abbrev pub kill_value : ℕ
  kill_value = bit_or ret_errno_base eperm

  -- The methods of the builder, each on the instructions so far.
  abbrev pub load_nr : List SockFilter → List SockFilter
  load_nr insns = insns ++ (ld off_nr ∷ [])

  abbrev pub jeq_kill : ℕ → List SockFilter → List SockFilter
  jeq_kill nr insns = insns ++ (jeq nr 1 0 ∷ []) ++ (ja 1 ∷ []) ++ (ret kill_value ∷ [])

  abbrev pub jeq_notif : ℕ → List SockFilter → List SockFilter
  jeq_notif nr insns = insns ++ (jeq nr 1 0 ∷ []) ++ (ja 1 ∷ []) ++ (ret ret_user_notif_value ∷ [])

  abbrev pub ret_allow : List SockFilter → List SockFilter
  ret_allow insns = insns ++ (ret ret_allow_value ∷ [])

  -- for each nr: loadNr, jeqKill
  abbrev pub kill_all : List ℕ → List SockFilter → List SockFilter
  kill_all [] insns = insns
  kill_all (nr ∷ nrs) insns = kill_all nrs (jeq_kill nr (load_nr insns))

  -- The handler of socket(): jeq2, ja and the three calls of the handler.
  abbrev pub socket_block : List SockFilter → List SockFilter
  socket_block insns =
      let guarded = load_nr insns ++ (jeq sys_socket 1 0 ∷ []) ++ (ja 5 ∷ []) in
      ret_allow (jeq_kill sys_sock_raw (guarded ++ (ld sock_type_arg ∷ [])))

  -- buildBPF
  unfoldable pub build_bpf : String → List SockFilter
  build_bpf mode =
      let blocked =
        kill_all (sys_bpf ∷ sys_init_module ∷ sys_kexec_load ∷ sys_perf_event_open ∷ []) [] in
      let insns = socket_block blocked in
      ret_allow (
        if is_notifying mode
        then jeq_notif sys_connect (load_nr insns)
        else kill_all (sys_connect ∷ sys_sendto ∷ sys_sendmsg ∷ sys_sendmmsg ∷ []) insns)

  -- The instructions behind the next `n`.
  abbrev pub drop : ℕ → List SockFilter → List SockFilter
  drop zero p = p
  drop (suc n) [] = []
  drop (suc n) (i ∷ p) = drop n p

  -- What the kernel does with the instructions ahead, the accumulator and the words of seccomp_data:
  -- the documented behaviour of these four instructions of classic BPF.
  pub record Machine : Type 0 where
    pub exec : List SockFilter → ℕ → (ℕ → ℕ) → ℕ
    pub exec-ld :
        (offset : ℕ) (p : List SockFilter) (a : ℕ) (data_at : ℕ → ℕ)
        → exec (ld offset ∷ p) a data_at ≡ exec p (data_at offset) data_at
    pub exec-jeq :
        (value jt jf : ℕ) (p : List SockFilter) (a : ℕ) (data_at : ℕ → ℕ)
        → exec (jeq value jt jf ∷ p) a data_at
          ≡ exec (drop (if eqb a value then jt else jf) p) a data_at
    pub exec-ja :
        (jumps : ℕ) (p : List SockFilter) (a : ℕ) (data_at : ℕ → ℕ)
        → exec (ja jumps ∷ p) a data_at ≡ exec (drop jumps p) a data_at
    pub exec-ret :
        (value : ℕ) (p : List SockFilter) (a : ℕ) (data_at : ℕ → ℕ)
        → exec (ret value ∷ p) a data_at ≡ value
