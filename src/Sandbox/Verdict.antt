-- ===== src/Sandbox/Verdict.antt =====
-- What the filter of bpf.go decides on a system call.
use flowgent.Prelude.{
  ℕ, String, Bool, false, List, [], ◌∷◌, ◌≡◌, ap, ◌∙◌, arith, ◌||◌, eqb, Bool-cases, inl, inr,
  if◌then◌else◌,
}
use flowgent.Sandbox.Bpf.{
  Unix, SockFilter, Machine, is_notifying, ld, jeq, ja, ret, kill_value, build_bpf, sys_socket,
  sys_connect, sys_sendto, sys_sendmsg, sys_sendmmsg, sys_bpf, sys_init_module, sys_kexec_load,
  sys_perf_event_open, off_nr, sock_type_arg, sys_sock_raw,
}

-- The number is one of the list.
abbrev pub is_one_of : ℕ → List ℕ → Bool
is_one_of nr [] = false
is_one_of nr (n ∷ ns) = eqb nr n || is_one_of nr ns

module _ (unix : Unix) where
  -- The decision on a system call number and, for socket(), the type of the socket.
  abbrev pub verdict : String → ℕ → ℕ → ℕ
  verdict mode nr socket_type =
      if is_one_of nr (sys_bpf ∷ sys_init_module ∷ sys_kexec_load ∷ sys_perf_event_open ∷ [])
      then kill_value unix
      else if eqb nr sys_socket
      then (if eqb socket_type sys_sock_raw then kill_value unix else unix.ret_allow_value)
      else if is_notifying mode
      then (if eqb nr sys_connect then unix.ret_user_notif_value else unix.ret_allow_value)
      else if is_one_of nr (sys_connect ∷ sys_sendto ∷ sys_sendmsg ∷ sys_sendmmsg ∷ [])
      then kill_value unix
      else unix.ret_allow_value

  module _ (machine : Machine unix) where
    open machine use {exec, exec-ld, exec-jeq, exec-ja, exec-ret}

    exec-return :
        (nr value : ℕ) (p : List SockFilter) (data_at : ℕ → ℕ) (a : ℕ)
        → exec (jeq unix nr 1 0 ∷ ja unix 1 ∷ ret unix value ∷ p) a data_at
          ≡ (if eqb a nr then value else exec p a data_at)
    exec-return nr value p data_at a = elim (Bool-cases (eqb a nr)) [
      | inl e ↦ rw e (exec-jeq nr 1 0 _ a data_at ∙ rw e (exec-ret _ _ a data_at))
      | inr e ↦ rw e (exec-jeq nr 1 0 _ a data_at ∙ rw e (exec-ja 1 _ a data_at))
    ]

    -- A block that tests the number and returns a value.
    exec-test :
        (nr value : ℕ) (p : List SockFilter) (data_at : ℕ → ℕ) (a : ℕ)
        → exec (ld unix off_nr ∷ jeq unix nr 1 0 ∷ ja unix 1 ∷ ret unix value ∷ p) a data_at
          ≡ (if eqb (data_at off_nr) nr then value else exec p (data_at off_nr) data_at)
    exec-test nr value p data_at a =
        exec-ld off_nr _ a data_at ∙ exec-return nr value p data_at (data_at off_nr)

    -- The handler of socket().
    exec-socket :
        (p : List SockFilter) (data_at : ℕ → ℕ) (a : ℕ)
        → exec
            (ld unix off_nr
              ∷ jeq unix sys_socket 1 0
              ∷ ja unix 5
              ∷ ld unix sock_type_arg
              ∷ jeq unix sys_sock_raw 1 0
              ∷ ja unix 1
              ∷ ret unix (kill_value unix)
              ∷ ret unix unix.ret_allow_value
              ∷ p)
            a
            data_at
          ≡ (if eqb (data_at off_nr) sys_socket
              then (if eqb (data_at sock_type_arg) sys_sock_raw
                  then kill_value unix
                  else unix.ret_allow_value)
              else exec p (data_at off_nr) data_at)
    exec-socket p data_at a =
        exec-ld off_nr _ a data_at ∙ elim (Bool-cases (eqb (data_at off_nr) sys_socket)) [
          | inl e ↦ rw e (
              exec-jeq sys_socket 1 0 _ (data_at off_nr) data_at
              ∙ rw e (
                  exec-ld sock_type_arg _ (data_at off_nr) data_at
                  ∙ exec-return sys_sock_raw (kill_value unix) _ data_at (data_at sock_type_arg)
                  ∙ ap
                      (λ x. if eqb (data_at sock_type_arg) sys_sock_raw then kill_value unix else x)
                      (exec-ret _ _ _ data_at)))
          | inr e ↦ rw e (
              exec-jeq sys_socket 1 0 _ (data_at off_nr) data_at
              ∙ rw e (exec-ja 5 _ (data_at off_nr) data_at))
        ]

    -- The filter for a mode returns, for a system call with its number and its second argument, the
    -- decision `verdict`: the four privileged calls fail with EPERM, as does socket() for SOCK_RAW;
    -- with a list of targets connect() goes to the notifier, and without one connect() and the calls
    -- that send fail; every other call is allowed.
    pub exec-build_bpf :
        (mode : String) (data_at : ℕ → ℕ) (a : ℕ)
        → exec (build_bpf unix mode) a data_at
          ≡ verdict mode (data_at off_nr) (data_at sock_type_arg)
    unfolding build_bpf
    exec-build_bpf mode data_at a = elim (Bool-cases (is_notifying mode)) [
      | inl e ↦ rw e (simp (exec-test, exec-socket, exec-ret) (ground arith))
      | inr e ↦ rw e (simp (exec-test, exec-socket, exec-ret) (ground arith))
    ]
