-- ===== src/Worker/Window.antt =====
-- `idle_wait`, `retry_delay` and `run_stage_within_window` of crates/scribe-pipeline/src/worker.rs.
-- Durations are seconds; instants of the monotonic clock are nanoseconds.
use scribe_local.Common.{
  ℕ, ◌+◌, ◌*◌, min, max, Bool, List, [], ◌∷◌, Option, none, some, ltb, leb, if◌then◌else◌,
}
use scribe_local.Common.Text.{Text}
use scribe_local.Types.Kind.{JobKind, bypasses_schedule}
use scribe_local.Schedule.Policy.{ScheduleDecision, second_ns}

abbrev pub paused_poll_max : ℕ
paused_poll_max = 15

abbrev pub min_defer : ℕ
min_defer = 60

abbrev pub fallback_defer : ℕ
fallback_defer = 3600

unfoldable pub idle_wait : ℕ → Bool → ℕ
idle_wait poll allowed = if allowed then poll else min poll paused_poll_max

abbrev pub delay_until : Option ℕ → ℕ
delay_until none = fallback_defer
delay_until (some secs) = if ltb 0 secs then max secs min_defer else fallback_defer

unfoldable pub retry_delay : ScheduleDecision → ℕ
retry_delay decision = delay_until decision.next_change_secs

-- What a stage returns; an error is its message.
pub data StageResult : Type 0 where
  succeeded : StageResult
  erred : Text → StageResult

pub data StageOutcome : Type 0 where
  finished : StageResult → StageOutcome
  window_closed : ℕ → StageOutcome

-- A tick of the window check: the instant, and the schedule's grace and verdict then.
pub record Check : Type 0 where
  pub at : ℕ
  pub grace_minutes : ℕ
  pub decision : ScheduleDecision

-- What `select!` sees, in order.
pub data Event : Type 0 where
  stage_done : StageResult → Event
  checked : Check → Event

abbrev pub since_or : Option ℕ → ℕ → ℕ
since_or none at = at
since_or (some s) at = s

-- The check finds that the window has been shut since `since` for the whole grace period.
abbrev pub grace_over : ℕ → Check → Bool
grace_over since c = leb (since + c.grace_minutes * 60 * second_ns) c.at

-- The loop over the events that have come; `none` while the stage still runs.
unfoldable pub watch : Option ℕ → List Event → Option StageOutcome
watch closed_since [] = none
watch closed_since (stage_done r ∷ es) = some (finished r)
watch closed_since (checked c ∷ es) =
    let go_on = watch none es in
    let since = since_or closed_since c.at in
    let keep = watch (some since) es in
    if c.decision.allowed
    then go_on
    else if grace_over since c
    then some (window_closed (retry_delay c.decision))
    else keep

-- A stage that bypasses the schedule is awaited with no check.
unfoldable pub await_stage : List Event → Option StageOutcome
await_stage [] = none
await_stage (stage_done r ∷ es) = some (finished r)
await_stage (checked c ∷ es) = await_stage es

unfoldable pub run_stage_within_window : JobKind → List Event → Option StageOutcome
unfolding watch await_stage
run_stage_within_window kind events =
    if bypasses_schedule kind then await_stage events else watch none events
