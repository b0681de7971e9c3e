-- ===== src/Examples/Beats.antt =====
-- Two task managers under a `HeartbeatMonitor` with a lease of 15 (heartbeat.go): one beats again.
use flowgent.Prelude.{ℕ, none, some, ◌+◌, ◌≤◌, ◌↔◌, List, [], ◌∷◌, ◌≡◌, refl, Memᴰ, arith}
use flowgent.Prelude.Int.{pos}
use flowgent.Prelude.Dict.{put}
use flowgent.Heartbeat.{
  HeartbeatMonitor, new_heartbeat_monitor, record_beat, detect_expired, alive_of,
}
use flowgent.Heartbeat.Laws.{Event, beat, tick, run, AreBefore, last_beat_of, detect_expired-active}

abbrev beats : List Event
beats = beat "tm-1" 0 ∷ beat "tm-2" 1 ∷ tick 10 ∷ beat "tm-1" 12 ∷ tick 20 ∷ []

abbrev monitor : HeartbeatMonitor
monitor = run (new_heartbeat_monitor (pos 15)) beats

beats-AreBefore : AreBefore 25 beats
beats-AreBefore = (omega arith, (omega arith, record {}))

one-alive : alive_of (detect_expired monitor 25).active_tms ≡ "tm-1" ∷ []
unfolding detect_expired run alive_of put record_beat new_heartbeat_monitor
one-alive = refl

detect_expired-active_example :
    Memᴰ "tm-1" (alive_of (detect_expired monitor 25).active_tms)
    ↔ ((t : ℕ) × (last_beat_of "tm-1" none beats ≡ some t) × (25 ≤ t + 15))
detect_expired-active_example = detect_expired-active (pos 15) 25 beats "tm-1" beats-AreBefore
