-- ===== src/Api/Settings.antt =====
-- The schedule's endpoints of crates/scribe-api/src/handlers/schedule.rs over the row of
-- crates/scribe-db/src/settings.rs. The two calls that wake the workers and count the backlog write
-- nothing. `now` is the clock, in nanoseconds as in the schedule.
use scribe_local.Common.{
  ℕ, ◌+◌, ◌*◌, Bool, not, ◌&&◌, ◌||◌, List, [], ◌∷◌, Option, none, some, ltb, ◌==◌, if◌then◌else◌,
  length,
}
use scribe_local.Common.Int.{ℤ, pos, ltb_ℤ, pos_part}
use scribe_local.Schedule.Policy.{
  DayWindow, OverrideMode, run_mode, pause_mode, ScheduleOverride, ProcessingSchedule,
  default_schedule, normalize, minutes_per_day, max_override_minutes, minute_ns,
}

-- The stored document: absent, unreadable, or a schedule.
pub data Setting : Type 0 where
  absent unreadable : Setting
  stored : ProcessingSchedule → Setting

abbrev pub read_setting : Setting → ProcessingSchedule
read_setting absent = default_schedule
read_setting unreadable = default_schedule
read_setting (stored s) = s

unfoldable pub processing_schedule : ℕ → Setting → ProcessingSchedule
processing_schedule now setting = normalize now (read_setting setting)

-- The row that is written, which is also what is returned.
unfoldable pub set_processing_schedule : ℕ → ProcessingSchedule → ProcessingSchedule
set_processing_schedule now s = normalize now s

pub data BadRequest : Type 0 where
  bad_day_count : ℕ → BadRequest
  bad_day : ℕ → BadRequest
  bad_grace bad_minutes : BadRequest

pub data Reply : Type 0 where
  refused : BadRequest → Reply
  saved : ProcessingSchedule → Reply

abbrev pub is_bad_day : DayWindow → Bool
is_bad_day d = ltb minutes_per_day d.start || ltb minutes_per_day d.end

-- The index of the first day that is out of range.
unfoldable pub first_bad_day : ℕ → List DayWindow → Option ℕ
first_bad_day i [] = none
first_bad_day i (d ∷ ds) =
    let later = first_bad_day (i + 1) ds in if is_bad_day d then some i else later

unfoldable pub validate_days : List DayWindow → Option BadRequest
unfolding first_bad_day
validate_days days =
    if not (length days == 7)
    then some (bad_day_count (length days))
    else elim (first_bad_day 0 days) [ none ↦ none | some i ↦ some (bad_day i) ]

pub record SetScheduleRequest : Type 0 where
  pub enabled : Bool
  pub days : List DayWindow
  pub grace_minutes : ℕ

pub data OverrideAction : Type 0 where
  run pause clear : OverrideAction

pub record OverrideRequest : Type 0 where
  pub mode : OverrideAction
  pub minutes : Option ℤ

-- What the settings hold after a reply.
abbrev pub after_reply : Setting → Reply → Setting
after_reply setting (refused e) = setting
after_reply setting (saved s) = stored s

unfoldable pub set_schedule : ℕ → SetScheduleRequest → Setting → Reply
unfolding validate_days processing_schedule set_processing_schedule
set_schedule now req setting = elim (validate_days req.days) [
  | some e ↦ refused e
  | none ↦
      if ltb (24 * 60) req.grace_minutes
      then refused bad_grace
      else saved (
          set_processing_schedule now (record {
            enabled = req.enabled;
            days = req.days;
            grace_minutes = req.grace_minutes;
            active_override = (processing_schedule now setting).active_override;
          }))
]

abbrev pub minutes_or : Option ℤ → ℤ
minutes_or none = pos 60
minutes_or (some m) = m

-- Between 1 and the maximum.
abbrev pub is_allowed : ℤ → Bool
is_allowed m = not (ltb_ℤ m (pos 1)) && not (ltb_ℤ (pos max_override_minutes) m)

abbrev pub save_override : ℕ → Setting → Option ScheduleOverride → Reply
save_override now setting o =
    saved (
      set_processing_schedule now
        (record (processing_schedule now setting) { active_override = o }))

abbrev pub timed_override : ℕ → Setting → OverrideMode → ℤ → Reply
timed_override now setting mode m =
    if is_allowed m
    then save_override now setting
        (some (record { mode = mode; until = now + pos_part m * minute_ns }))
    else refused bad_minutes

unfoldable pub set_override : ℕ → OverrideRequest → Setting → Reply
unfolding processing_schedule set_processing_schedule
set_override now req setting = elim req.mode [
  | clear ↦ save_override now setting none
  | run ↦ timed_override now setting run_mode (minutes_or req.minutes)
  | pause ↦ timed_override now setting pause_mode (minutes_or req.minutes)
]
