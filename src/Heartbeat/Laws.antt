-- ===== src/Heartbeat/Laws.antt =====
-- Which task managers a `HeartbeatMonitor` (heartbeat.go) takes for alive.
use mathlib.Core.List.Memᴰ
use mathlib.Core.Bool.{true≢false}
use flowgent.Prelude.Int.{ℤ, pos, negsuc}
use flowgent.Prelude.{
  Option, none, some, ◌∙◌, sym, subst, ◌*◌, ◌^◌, if◌then◌else◌, Option-cases, some_inj, none-some,
  zero, suc, ℕ, ◌+◌, ◌≤◌, ◌<◌, String, true, false, List, [], ◌∷◌, ◌≡◌, refl, ap, ◌↔◌, inl, inr,
  Memᴰ, arith, ◌==◌, Bool-cases,
}
use flowgent.Prelude.Dict.{Dict, get, put, get-put, AreDistinct, put-AreDistinct, mem-get, get-mem}
use flowgent.Heartbeat.{
  TmState, HeartbeatMonitor, new_heartbeat_monitor, record_beat, is_late, mark_expired,
  detect_expired, alive_of,
}

-- What happens to a monitor: a heartbeat, or a tick of its clock at a time.
pub data Event : Type 0 where
  beat : String → ℕ → Event
  tick : ℕ → Event

unfoldable pub run : HeartbeatMonitor → List Event → HeartbeatMonitor
run hm [] = hm
run hm (beat tm timestamp ∷ es) = run (record_beat hm tm timestamp) es
run hm (tick now ∷ es) = run (detect_expired hm now) es

-- No tick comes behind `end`.
abbrev pub AreBefore : ℕ → List Event → Type 0
AreBefore end [] = Unit
AreBefore end (beat tm timestamp ∷ es) = AreBefore end es
AreBefore end (tick now ∷ es) = (now ≤ end) × AreBefore end es

-- The time of the last heartbeat of a task manager among some events, behind an earlier one.
abbrev pub last_beat_of : String → Option ℕ → List Event → Option ℕ
last_beat_of tm earlier [] = earlier
last_beat_of tm earlier (beat k timestamp ∷ es) =
    last_beat_of tm (if k == tm then some timestamp else earlier) es
last_beat_of tm earlier (tick now ∷ es) = last_beat_of tm earlier es

-- What is marked dead is late by `end`.
abbrev pub DeadAreLate : ℕ → ℕ → Dict TmState → Type 0
DeadAreLate lease end [] = Unit
DeadAreLate lease end ((tm, s) ∷ d) =
    (s.is_alive ≡ false → s.last_beat + lease < end) × DeadAreLate lease end d

module _ (lease end : ℕ) where
  put-DeadAreLate :
      (d : Dict TmState) (tm : String) (timestamp : ℕ)
      → DeadAreLate lease end d
      → DeadAreLate lease end (put d tm (record { last_beat = timestamp; is_alive = true }))
  unfolding put
  put-DeadAreLate [] tm timestamp h = ((λ f. absurd (true≢false f)), record {})
  put-DeadAreLate ((j, s) ∷ d) tm timestamp h = elim (Bool-cases (j == tm)) [
    | inl e ↦ rw (e, put) ((λ f. absurd (true≢false f)), h.1)
    | inr e ↦ rw (e, put) (h.0, put-DeadAreLate d tm timestamp h.1)
  ]

  mark-DeadAreLate :
      (now : ℕ) (d : Dict TmState)
      → now ≤ end
      → DeadAreLate lease end d
      → DeadAreLate lease end (mark_expired lease now d)
  unfolding mark_expired
  mark-DeadAreLate now [] le h = record {}
  mark-DeadAreLate now ((tm, s) ∷ d) le h =
      ((λ f. ground (arith, h.0)), mark-DeadAreLate now d le h.1)

  alive_of_nil : alive_of (mark_expired lease end []) ≡ []
  unfolding mark_expired alive_of
  alive_of_nil = refl

  late_head :
      (j : String) (s : TmState) (d : Dict TmState)
      → is_late lease end s ≡ true
      → alive_of (mark_expired lease end ((j, s) ∷ d)) ≡ alive_of (mark_expired lease end d)
  unfolding mark_expired alive_of
  late_head j s d e = ground arith

  timely_head :
      (j : String) (s : TmState) (d : Dict TmState)
      → is_late lease end s ≡ false
      → (s.is_alive ≡ false → s.last_beat + lease < end)
      → alive_of (mark_expired lease end ((j, s) ∷ d)) ≡ j ∷ alive_of (mark_expired lease end d)
  unfolding mark_expired alive_of is_late
  timely_head j s d e h = ground (arith, h)

  -- A name with a state that is not late.
  abbrev Timely : String → Dict TmState → Type 0
  Timely tm d = (s : TmState) × Memᴰ (tm, s) d × (end ≤ s.last_beat + lease)

  later : {tm j : String} {x : TmState} {d : Dict TmState} → Timely tm d → Timely tm ((j, x) ∷ d)
  later (s, m, le) = (s, Memᴰ.tail m, le)

  module _ {j tm : String} {s : TmState} {d : Dict TmState} {l : List String}
      (rest : Memᴰ tm l ↔ Timely tm d) where
    from_late : is_late lease end s ≡ true → Timely tm ((j, s) ∷ d) → Memᴰ tm l
    unfolding is_late
    from_late e (x, Memᴰ.tail m, le) = rest.1 (x, m, le)
    from_late e (x, Memᴰ.head q, le) =
        let same : x ≡ s = ap (λ (z : String × TmState). z.1) q in
        absurd (ground (arith, ap (λ (z : TmState). z.last_beat) same))

    to_timely : is_late lease end s ≡ false → Memᴰ tm (j ∷ l) → Timely tm ((j, s) ∷ d)
    unfolding is_late
    to_timely e (Memᴰ.head q) = (s, Memᴰ.head (rw q refl), ground arith)
    to_timely e (Memᴰ.tail m) = later (rest.0 m)

    from_timely : Timely tm ((j, s) ∷ d) → Memᴰ tm (j ∷ l)
    from_timely (x, Memᴰ.head q, le) = Memᴰ.head (ap (λ (z : String × TmState). z.0) q)
    from_timely (x, Memᴰ.tail m, le) = Memᴰ.tail (rest.1 (x, m, le))

  -- Behind a tick the marks say who is late.
  alive_iff :
      (d : Dict TmState) (tm : String)
      → DeadAreLate lease end d
      → Memᴰ tm (alive_of (mark_expired lease end d)) ↔ Timely tm d
  alive_iff [] tm h =
      rw alive_of_nil ((λ m. absurd (Memᴰ.not-nil m)), λ m. absurd (Memᴰ.not-nil m.1))
  alive_iff ((j, s) ∷ d) tm h =
      let rest = alive_iff d tm h.1 in
      elim (Bool-cases (is_late lease end s)) [
        | inl e ↦ rw (late_head j s d e) ((λ m. later (rest.0 m)), from_late rest e)
        | inr e ↦ rw (timely_head j s d e h.0) (to_timely rest e, from_timely rest)
      ]

  run-DeadAreLate :
      (hm : HeartbeatMonitor) (es : List Event)
      → hm.lease_timeout ≡ lease
      → AreBefore end es
      → DeadAreLate lease end hm.active_tms
      → DeadAreLate lease end (run hm es).active_tms × ((run hm es).lease_timeout ≡ lease)
  unfolding run record_beat detect_expired
  run-DeadAreLate hm [] q b h = (h, q)
  run-DeadAreLate hm (beat tm timestamp ∷ es) q b h =
      run-DeadAreLate (record_beat hm tm timestamp) es q b
        (put-DeadAreLate hm.active_tms tm timestamp h)
  run-DeadAreLate hm (tick now ∷ es) q b h =
      run-DeadAreLate (detect_expired hm now) es q b.1
        (rw q (mark-DeadAreLate now hm.active_tms b.0 h))

new-DeadAreLate :
    (timeout : ℤ) (now : ℕ)
    → DeadAreLate
        (new_heartbeat_monitor timeout).lease_timeout
        now
        (new_heartbeat_monitor timeout).active_tms
unfolding new_heartbeat_monitor
new-DeadAreLate (pos zero) now = record {}
new-DeadAreLate (pos (suc n)) now = record {}
new-DeadAreLate (negsuc n) now = record {}

-- The time of the last heartbeat that a monitor has of a task manager.
beat_of : Dict TmState → String → Option ℕ
beat_of d tm = elim (get d tm) [ none ↦ none | some s ↦ some s.last_beat ]

beat_of-put :
    (d : Dict TmState) (k : String) (timestamp : ℕ) (tm : String)
    → beat_of (put d k (record { last_beat = timestamp; is_alive = true })) tm
      ≡ (if k == tm then some timestamp else beat_of d tm)
unfolding beat_of
beat_of-put d k timestamp tm =
    ground (arith, get-put d k (record { last_beat = timestamp; is_alive = true }) tm)

beat_of-mark :
    (lease now : ℕ) (d : Dict TmState) (tm : String)
    → beat_of (mark_expired lease now d) tm ≡ beat_of d tm
unfolding beat_of mark_expired get
beat_of-mark lease now [] tm = refl
beat_of-mark lease now ((j, s) ∷ d) tm = ground (arith, beat_of-mark lease now d tm)

run-beat_of :
    (hm : HeartbeatMonitor) (es : List Event) (tm : String)
    → beat_of (run hm es).active_tms tm ≡ last_beat_of tm (beat_of hm.active_tms tm) es
unfolding run record_beat detect_expired
run-beat_of hm [] tm = refl
run-beat_of hm (beat k timestamp ∷ es) tm =
    run-beat_of (record_beat hm k timestamp) es tm
    ∙ ap (λ z. last_beat_of tm z es) (beat_of-put hm.active_tms k timestamp tm)
run-beat_of hm (tick now ∷ es) tm =
    run-beat_of (detect_expired hm now) es tm
    ∙ ap (λ z. last_beat_of tm z es) (beat_of-mark hm.lease_timeout now hm.active_tms tm)

mark-none :
    (lease now : ℕ) (d : Dict TmState) (tm : String)
    → get d tm ≡ none
    → get (mark_expired lease now d) tm ≡ none
unfolding mark_expired get
mark-none lease now [] tm h = refl
mark-none lease now ((j, s) ∷ d) tm h = ground (arith, mark-none lease now d tm)

mark-AreDistinct :
    (lease now : ℕ) (d : Dict TmState) → AreDistinct d → AreDistinct (mark_expired lease now d)
unfolding mark_expired
mark-AreDistinct lease now [] h = h
mark-AreDistinct lease now ((j, s) ∷ d) (h, hs) =
    (mark-none lease now d j h, mark-AreDistinct lease now d hs)

run-AreDistinct :
    (hm : HeartbeatMonitor) (es : List Event)
    → AreDistinct hm.active_tms
    → AreDistinct (run hm es).active_tms
unfolding run record_beat detect_expired
run-AreDistinct hm [] h = h
run-AreDistinct hm (beat k timestamp ∷ es) h =
    run-AreDistinct (record_beat hm k timestamp) es (put-AreDistinct hm.active_tms k _ h)
run-AreDistinct hm (tick now ∷ es) h =
    run-AreDistinct (detect_expired hm now) es
      (mark-AreDistinct hm.lease_timeout now hm.active_tms h)

-- Who is timely, by the last heartbeat.
recent_iff :
    (lease end : ℕ) (d : Dict TmState) (tm : String)
    → AreDistinct d
    → Timely lease end tm d ↔ ((t : ℕ) × (beat_of d tm ≡ some t) × (end ≤ t + lease))
unfolding beat_of
recent_iff lease end d tm h = (
  (λ (s, m, le). (s.last_beat, rw (mem-get d tm s h m, beat_of) refl, le)),
  (λ (t, e, le). elim (Option-cases (get d tm)) [
    | inl q ↦ absurd (none-some (rw (q, beat_of) at e))
    | inr (s, q) ↦
        let same : s.last_beat ≡ t = some_inj (rw (q, beat_of) at e) in
        (s, get-mem d tm s q, rw same le)
  ]),
)

new-AreDistinct : (timeout : ℤ) → AreDistinct (new_heartbeat_monitor timeout).active_tms
unfolding new_heartbeat_monitor
new-AreDistinct (pos zero) = record {}
new-AreDistinct (pos (suc n)) = record {}
new-AreDistinct (negsuc n) = record {}

new-beat_of :
    (timeout : ℤ) (tm : String) → beat_of (new_heartbeat_monitor timeout).active_tms tm ≡ none
unfolding new_heartbeat_monitor beat_of get
new-beat_of (pos zero) tm = refl
new-beat_of (pos (suc n)) tm = refl
new-beat_of (negsuc n) tm = refl

-- The lease of a new monitor: the timeout, or 15 seconds where that is not positive.
abbrev pub lease_of : ℤ → ℕ
lease_of (pos (suc n)) = suc n
lease_of _ = 15 * 10 ^ 9

new-lease : (timeout : ℤ) → (new_heartbeat_monitor timeout).lease_timeout ≡ lease_of timeout
unfolding new_heartbeat_monitor
new-lease (pos zero) = refl
new-lease (pos (suc n)) = refl
new-lease (negsuc n) = refl

-- After any heartbeats and ticks on a new monitor, with no tick later than the time now, a tick at
-- now leaves as ActiveTMs exactly those task managers of which a heartbeat was recorded, and the time
-- of the last one is at most the lease old: the timeout, or 15 seconds where that is not positive.
pub detect_expired-active :
    (timeout : ℤ) (now : ℕ) (es : List Event) (tm : String)
    → AreBefore now es
    → Memᴰ tm (alive_of (detect_expired (run (new_heartbeat_monitor timeout) es) now).active_tms)
      ↔ ((t : ℕ) × (last_beat_of tm none es ≡ some t) × (now ≤ t + lease_of timeout))
unfolding detect_expired
detect_expired-active timeout now es tm b =
    let new = new_heartbeat_monitor timeout in
    let d = (run new es).active_tms in
    let (h, q) =
      run-DeadAreLate new.lease_timeout now new es refl b (new-DeadAreLate timeout now) in
    let (to, from) = alive_iff new.lease_timeout now d tm h in
    let (there, back) =
      recent_iff new.lease_timeout now d tm (run-AreDistinct new es (new-AreDistinct timeout)) in
    let last : beat_of d tm ≡ last_beat_of tm none es =
      run-beat_of new es tm ∙ ap (λ z. last_beat_of tm z es) (new-beat_of timeout tm) in
    rw (q) (
      (λ m.
          let (t, e, le) = there (to m) in
          (t, sym last ∙ e, subst (λ z. now ≤ t + z) (new-lease timeout) le)),
      (λ (t, e, le).
          from (back (t, last ∙ e, subst (λ z. now ≤ t + z) (sym (new-lease timeout)) le))),
    )
