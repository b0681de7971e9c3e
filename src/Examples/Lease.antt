-- ===== src/Examples/Lease.antt =====
-- Two holders and a key of the `MemoryLock` of lock.go, and two runs that a job manager claims.
use flowgent.Prelude.{some, ◌+◌, true, false, List, [], ◌∷◌, ◌≡◌, refl, arith}
use flowgent.Prelude.Dict.{get, put}
use flowgent.Lock.{MemoryLock, try_lock, is_held}
use flowgent.Lock.Laws.{Call, acquire, free, prolong, calls, AreWithin, try_lock-exclusive}
use flowgent.Prelude.Positions.{get_elem?}
use flowgent.JobManager.{claim_run, run_lock_key, run_lock_ttl}
use flowgent.JobManager.Lease.{
  Holder, World, claim, renew, claims, renews, passes, Reach, initial, later, ArePunctual,
}
use flowgent.JobManager.Exclusive.{IsExclusive, Reach-IsExclusive}

abbrev fresh : MemoryLock
fresh = record { locks = []; lock_values = [] }

-- Calls on other keys, and one that tries to take "leader" while it is held.
abbrev others : List Call
others =
    acquire "w" "shard" 5 1 ∷ prolong "shard" 9 2 ∷ acquire "v" "leader" 5 3 ∷ free "shard" ∷ []

others-AreWithin : AreWithin "leader" (0 + 10) others
others-AreWithin = ((λ e. omega arith), ((λ e. cc), ((λ e. omega arith), ((λ e. cc), record {}))))

leader_taken : (try_lock "u" fresh "leader" 10 0).1 ≡ true
unfolding try_lock get
leader_taken = refl

try_lock-exclusive_example :
    (try_lock "v" (calls (try_lock "u" fresh "leader" 10 0).0 others) "leader" 10 4).1 ≡ false
try_lock-exclusive_example =
    try_lock-exclusive "u" "v" fresh "leader" 10 10 0 4 others leader_taken others-AreWithin
      (omega arith)

-- Two runs are claimed, one of them in vain once more, and a tick prolongs it.
abbrev two_claimed : World
two_claimed =
    claim "w" "b" (claim "v" "b" (claim "u" "a" (record { lock = fresh; now = 7; holders = [] })))

abbrev behind_tick : World
behind_tick = record two_claimed { now = 60_000_000_008 }

abbrev holder_b : Holder
holder_b = record { run_id = "b"; ticking = true; tick = 60_000_000_007 }

abbrev two_claimed-Reach : Reach two_claimed
two_claimed-Reach =
    later _ _ (later _ _ (later _ _ (initial 7) (claims "u" "a" _)) (claims "v" "b" _))
      (claims "w" "b" _)

holder_b-first : get_elem? behind_tick.holders 0 ≡ some holder_b
unfolding get_elem? claim claim_run try_lock is_held get put run_lock_key run_lock_ttl
holder_b-first = refl

two_claimed_at : two_claimed.now ≡ 7
unfolding claim claim_run try_lock is_held get put run_lock_key run_lock_ttl
two_claimed_at = refl

abbrev behind_tick-Reach : Reach (renew 0 holder_b behind_tick)
behind_tick-Reach =
    later _ _
      (later _ _ two_claimed-Reach
        (passes 60_000_000_008 two_claimed (omega (arith, two_claimed_at))))
      (renews 0 holder_b behind_tick holder_b-first refl (omega arith))

behind_tick-ArePunctual : ArePunctual _ behind_tick-Reach
unfolding claim claim_run try_lock is_held get put run_lock_key run_lock_ttl
behind_tick-ArePunctual = (((((tt, tt), tt), tt), (omega arith, (omega arith, tt))), tt)

Reach-IsExclusive_example : IsExclusive (renew 0 holder_b behind_tick)
Reach-IsExclusive_example =
    Reach-IsExclusive (renew 0 holder_b behind_tick) behind_tick-Reach behind_tick-ArePunctual
