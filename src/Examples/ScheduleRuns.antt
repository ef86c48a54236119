-- ===== src/Examples/ScheduleRuns.antt =====
-- Runs of the schedule.
use scribe_local.Common.{
  Option, ltb, if◌then◌else◌, ℕ, ◌+◌, ◌*◌, ◌≤◌, ◌≡◌, refl, true, false, [], ◌∷◌, some, none, arith,
  ◌↔◌,
}
use scribe_local.Schedule.Policy.{
  Calendar, ProcessingSchedule, run_mode, ScheduleDecision, outside_window, length_minutes,
  normalize, decide, decide_under, minute_ns, second_ns, day_ns,
}
use scribe_local.Schedule.Normalize.{length_minutes_range, IsNormal, normalize-IsNormal}
use scribe_local.Schedule.Gate.{new_gate, schedule, asks, wakes, run}
use scribe_local.Schedule.Staleness.{IsCurrent, schedule-run}
use scribe_local.Schedule.Windows.{HasEdges}
use scribe_local.Schedule.Stable.{decide_stable}
use scribe_local.Schedule.Decide.{Allows, decide-Allows}

abbrev calendar : Calendar
calendar = record { first_weekday = 0; days_end = 1000 }

-- Monday from 22:00 to 06:00 of the next day; no other day.
abbrev nights : ProcessingSchedule
nights = record {
  enabled = true;
  days = record { enabled = true; start = 1320; end = 360 } ∷ [];
  grace_minutes = 10;
  active_override = none;
}

-- 23:30 of the Monday that is day 14.
abbrev late : ℕ
late = 14 * day_ns + 1410 * minute_ns

nights-HasEdges : HasEdges nights
nights-HasEdges = ((omega arith, omega arith), tt)

length_minutes_range_example :
    (length_minutes (record { enabled = true; start = 1320; end = 360 }) ≤ 1440)
    × ((length_minutes (record { enabled = true; start = 1320; end = 360 }) ≡ 0)
        ↔ ((◌≡◌ {A = ℕ} 1320 1440) × (◌≡◌ {A = ℕ} 360 0)))
length_minutes_range_example =
    length_minutes_range (record { enabled = true; start = 1320; end = 360 }) (omega arith)
      (omega arith)

normalize-IsNormal_example : IsNormal late (normalize late nights)
normalize-IsNormal_example = normalize-IsNormal late nights

-- The store can be read until instant 1000.
abbrev store : ℕ → Option ProcessingSchedule
store now = if ltb now 1000 then some nights else none

schedule-run_example :
    let w = run store calendar (λ n. n) (λ n. n) (asks 300 ∷ wakes ∷ asks 600 ∷ []) (0, new_gate) in
    IsCurrent store (w.0 + 1000) (schedule (w.0 + 1000) (store (w.0 + 1000)) w.1).1
schedule-run_example =
    schedule-run store calendar (λ n. n) (λ n. n) (asks 300 ∷ wakes ∷ asks 600 ∷ []) 1000

-- The same nights, overruled until instant 5000.
abbrev overruled : ProcessingSchedule
overruled = record nights {
  active_override = some (record { mode = run_mode; until = 5000 * second_ns });
}

decide-Allows_example :
    ((decide overruled calendar late 0).allowed ≡ true)
    ↔ Allows overruled.active_override overruled calendar late 0
decide-Allows_example = decide-Allows overruled calendar late 0 nights-HasEdges

overruled_change : (decide overruled calendar late 0).next_change_secs ≡ some 5000
unfolding decide decide_under
overruled_change = refl

decide_stable_example :
    (decide overruled calendar (late + 4000 * second_ns) (0 + 4000 * second_ns)).allowed
    ≡ (decide overruled calendar late 0).allowed
decide_stable_example =
    decide_stable overruled calendar late 0 (4000 * second_ns) 5000 nights-HasEdges overruled_change
      (omega arith)

abbrev paused : ScheduleDecision
paused = record { allowed = false; reason = outside_window; next_change_secs = some 3600 }
