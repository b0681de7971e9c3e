-- ===== src/Controller/Cleanup.antt =====
-- The first times at which a deployment was seen without its flow's runs or its parent:
-- `markRuntimeCleanup`, `clearRuntimeCleanup`, `effectiveTMOrphanTimeout` of controller.go. Times are
-- nanoseconds.
use Prim.Native.String.{◌++◌ as str_append}
use flowgent.Prelude.{ℕ, zero, suc, String, none, some}
use flowgent.Prelude.Int.{ℤ, pos, negsuc}
use flowgent.Prelude.Dict.{Dict, get, put, remove}

abbrev pub Cleanups : Type 0
Cleanups = Dict ℕ

abbrev pub cleanup_key : String → String → String
cleanup_key namespace name = str_append namespace (str_append "/" name)

-- The time of the first mark and the marks; a key that is marked keeps its time.
unfoldable pub mark_cleanup : Cleanups → String → String → ℕ → Cleanups × ℕ
mark_cleanup cs namespace name now = elim (get cs (cleanup_key namespace name)) [
  | none ↦ (put cs (cleanup_key namespace name) now, now)
  | some first ↦ (cs, first)
]

unfoldable pub clear_cleanup : Cleanups → String → String → Cleanups
clear_cleanup cs namespace name = remove cs (cleanup_key namespace name)

-- 3 minutes, unless a positive timeout is configured.
unfoldable pub effective_timeout : ℤ → ℕ
effective_timeout (pos (suc n)) = suc n
effective_timeout (pos zero) = 180_000_000_000
effective_timeout (negsuc n) = 180_000_000_000
