-- ===== src/Sandbox.antt =====
-- sandbox/pkg/seccomp: the system call filter of the sandbox. Bpf builds the program (bpf.go), Policy
-- a filter from a network policy (seccomp.go), Wire passes it to the child process (seccomp.go and
-- exec.go), Notifier decides on connections (notifier.go).
-- Manager is execute of sandboxmanager.go, Worker its slot worker, and Executor is
-- core/pkg/engine/executor/sandbox.go. Verdict, RoundTrip, Isolation, Launches and Confined are proofs.
pub mod Bpf
pub mod Wire
pub mod Policy
pub mod Notifier
pub mod Verdict
pub mod RoundTrip
pub mod Isolation
pub mod Manager
pub mod Launches
pub mod Executor
pub mod Confined
pub mod Worker
