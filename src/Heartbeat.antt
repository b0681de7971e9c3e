-- ===== src/Heartbeat.antt =====
-- `HeartbeatMonitor` of core/pkg/engine/taskmanager/heartbeat.go. The capacity and the load of a
-- TMState are never written, and its name is its key. Each call gets the clock's reading.
pub mod Laws
use Prim.Native.String.{◌++◌}
use flowgent.Messager.Names.{heartbeat_topic}
use flowgent.Prelude.Int.{ℤ, pos, negsuc}
use flowgent.Prelude.{
  Option, none, some, suc, ◌/◌, ℕ, ◌+◌, String, Bool, true, false, List, [], ◌∷◌, ◌&&◌, ltb,
  if◌then◌else◌,
}
use flowgent.Prelude.Dict.{Dict, put}

pub record TmState : Type 0 where
  pub last_beat : ℕ
  pub is_alive : Bool

pub record HeartbeatMonitor : Type 0 where
  pub active_tms : Dict TmState
  pub lease_timeout : ℕ

-- NewHeartbeatMonitor: a timeout that is not positive becomes defaultLeaseTimeout.
unfoldable pub new_heartbeat_monitor : ℤ → HeartbeatMonitor
new_heartbeat_monitor (pos (suc n)) = record { active_tms = []; lease_timeout = suc n }
new_heartbeat_monitor _ = record { active_tms = []; lease_timeout = 15_000_000_000 }

-- recordBeat, with the name and the timestamp of the heartbeat
unfoldable pub record_beat : HeartbeatMonitor → String → ℕ → HeartbeatMonitor
record_beat hm tm timestamp = record hm {
  active_tms = put hm.active_tms tm (record { last_beat = timestamp; is_alive = true });
}

-- The handler of Start, with what encoding/json makes of a payload.
unfoldable pub on_message :
    (String → Option (String × ℕ)) → String → HeartbeatMonitor → HeartbeatMonitor
on_message decode payload hm = elim (decode payload) [
  | none ↦ hm
  | some (tm, timestamp) ↦ record_beat hm tm timestamp
]

-- The time between two ticks of Start.
unfoldable pub tick_interval : HeartbeatMonitor → ℕ
tick_interval hm = hm.lease_timeout / 2

-- The time between two heartbeats of startHeartbeat.
unfoldable pub beat_interval : ℤ → ℕ
beat_interval (pos (suc n)) = suc n
beat_interval _ = 5_000_000_000

-- What a tick of startHeartbeat publishes, by two readings of the clock: the topic, the message's
-- identifier and its payload. JSON and the decimals are arguments.
unfoldable pub heartbeat_message :
    (String → ℕ → String) → (ℕ → String) → String → ℕ → ℕ → String × String × String
unfolding heartbeat_topic
heartbeat_message encode decimal tm_id timestamp now =
    (heartbeat_topic tm_id, "hb-" ++ (tm_id ++ ("-" ++ decimal now)), encode tm_id timestamp)

-- now.Sub(s.LastBeat) > leaseTimeout
unfoldable pub is_late : ℕ → ℕ → TmState → Bool
is_late lease now s = ltb (s.last_beat + lease) now

-- The loop of `detectExpired`.
unfoldable pub mark_expired : ℕ → ℕ → Dict TmState → Dict TmState
unfolding is_late
mark_expired lease now [] = []
mark_expired lease now ((tm, s) ∷ d) =
    (tm, if s.is_alive && is_late lease now s then record s { is_alive = false } else s)
    ∷ mark_expired lease now d

-- detectExpired
unfoldable pub detect_expired : HeartbeatMonitor → ℕ → HeartbeatMonitor
unfolding mark_expired
detect_expired hm now = record hm { active_tms = mark_expired hm.lease_timeout now hm.active_tms }

-- ActiveTMs, by their names
unfoldable pub alive_of : Dict TmState → List String
alive_of [] = []
alive_of ((tm, s) ∷ d) = let rest = alive_of d in if s.is_alive then tm ∷ rest else rest

-- ExpiredTMs
unfoldable pub late_of : ℕ → ℕ → Dict TmState → List String
unfolding is_late
late_of lease now [] = []
late_of lease now ((tm, s) ∷ d) =
    let rest = late_of lease now d in if is_late lease now s then tm ∷ rest else rest
