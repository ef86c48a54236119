-- ===== src/Schedule/Gate.antt =====
-- crates/scribe-pipeline/src/gate.rs. The clock of `Instant` counts nanoseconds; what a read of the
-- stored schedule yields is an argument, `none` where the read fails. A call is one step.
use scribe_local.Common.{
  ℕ, ◌+◌, ◌-◌, ◌*◌, Bool, true, false, List, [], ◌∷◌, Option, none, some, ltb, if◌then◌else◌,
}
use scribe_local.Schedule.Policy.{
  Calendar, ProcessingSchedule, ScheduleDecision, default_schedule, decide, second_ns,
}

abbrev pub cache_ttl : ℕ
cache_ttl = 5 * second_ns

pub record GateState : Type 0 where
  pub cached : Option (ℕ × ProcessingSchedule)
  pub last_logged_allowed : Option Bool

abbrev pub new_gate : GateState
new_gate = record { cached = none; last_logged_allowed = none }

unfoldable pub invalidate : GateState → GateState
invalidate st = record st { cached = none }

abbrev pub fresh : ℕ → Option (ℕ × ProcessingSchedule) → Option ProcessingSchedule
fresh now none = none
fresh now (some (at, s)) = if ltb (now - at) cache_ttl then some s else none

abbrev pub last_known : Option (ℕ × ProcessingSchedule) → ProcessingSchedule
last_known none = default_schedule
last_known (some (at, s)) = s

abbrev pub from_read : ℕ → GateState → Option ProcessingSchedule → GateState × ProcessingSchedule
from_read now st (some s) = (record st { cached = some (now, s) }, s)
from_read now st none = (st, last_known st.cached)

abbrev pub or_read :
    ℕ
    → Option ProcessingSchedule
    → GateState
    → Option ProcessingSchedule
    → GateState × ProcessingSchedule
or_read now read st (some s) = (st, s)
or_read now read st none = from_read now st read

unfoldable pub schedule : ℕ → Option ProcessingSchedule → GateState → GateState × ProcessingSchedule
schedule now read st = or_read now read st (fresh now st.cached)

abbrev pub is_logged : Option Bool → Bool → Bool
is_logged none b = false
is_logged (some true) b = b
is_logged (some false) b = if b then false else true

-- A verdict is logged when it differs from the last that was.
abbrev pub note : Bool → GateState → GateState
note allowed st =
    if is_logged st.last_logged_allowed allowed
    then st
    else record st { last_logged_allowed = some allowed }

-- `decide`, with the calendar and the two clocks of `decide_now`.
unfoldable pub decide_at :
    Calendar → ℕ → ℕ → ℕ → Option ProcessingSchedule → GateState → GateState × ScheduleDecision
unfolding schedule
decide_at cal now_local now_utc now read st =
    let answer = schedule now read st in
    let decision = decide answer.1 cal now_local now_utc in
    (note decision.allowed answer.0, decision)

-- What a worker does with its gate: a verdict that is asked for some time later, or a wakeup.
pub data Event : Type 0 where
  asks : ℕ → Event
  wakes : Event

-- The instant and the gate after a history.
unfoldable pub run :
    (ℕ → Option ProcessingSchedule)
    → Calendar
    → (ℕ → ℕ)
    → (ℕ → ℕ)
    → List Event
    → ℕ × GateState
    → ℕ × GateState
unfolding decide_at invalidate
run stored cal local utc [] (now, st) = (now, st)
run stored cal local utc (wakes ∷ es) (now, st) = run stored cal local utc es (now, invalidate st)
run stored cal local utc (asks d ∷ es) (now, st) =
    run stored cal local utc es
      (now + d, (decide_at cal (local (now + d)) (utc (now + d)) (now + d) (stored (now + d)) st).0)
