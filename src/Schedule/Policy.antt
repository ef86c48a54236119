-- ===== src/Schedule/Policy.antt =====
-- The policy of crates/scribe-core/src/schedule.rs. Local and absolute instants are nanoseconds,
-- the resolution of chrono, from the first day that chrono represents; `Calendar` says which weekday
-- that day is and how many days there are. `u16` subtraction wraps, as in a release build.
use scribe_local.Common.{
  ℕ, zero, suc, ◌+◌, ◌-◌, ◌*◌, ◌/◌, ◌%◌, ◌^◌, min, max, Bool, true, false, not, ◌&&◌, List, [], ◌∷◌,
  ◌++◌, Option, none, some, ltb, leb, if◌then◌else◌, map, filter, find, length, get_elem?, take,
  replicate,
}
use scribe_local.Types.Kind.{JobKind, bypasses_schedule}

abbrev pub minutes_per_day : ℕ
minutes_per_day = 1440

abbrev pub max_override_minutes : ℕ
max_override_minutes = 24 * 60

abbrev pub lookahead_days : ℕ
lookahead_days = 8

abbrev pub second_ns : ℕ
second_ns = 1000000000

abbrev pub minute_ns : ℕ
minute_ns = 60000000000

abbrev pub day_ns : ℕ
day_ns = 86400000000000

-- `NaiveDate`: the weekday of the first day, Monday first, and the number of days.
pub record Calendar : Type 0 where
  pub first_weekday : ℕ
  pub days_end : ℕ

pub record DayWindow : Type 0 where
  pub enabled : Bool
  pub start : ℕ
  pub end : ℕ

abbrev pub off : DayWindow
off = record { enabled = false; start = 540; end = 1020 }

unfoldable pub length_minutes : DayWindow → ℕ
length_minutes w =
    if ltb w.start w.end
    then w.end - w.start
    else (minutes_per_day + 2 ^ 16 - w.start + w.end) % 2 ^ 16

pub data OverrideMode : Type 0 where
  run_mode pause_mode : OverrideMode

pub record ScheduleOverride : Type 0 where
  pub mode : OverrideMode
  pub until : ℕ

pub record ProcessingSchedule : Type 0 where
  pub enabled : Bool
  pub days : List DayWindow
  pub grace_minutes : ℕ
  pub active_override : Option ScheduleOverride

unfoldable pub default_schedule : ProcessingSchedule
default_schedule = record {
  enabled = false;
  days = replicate 5 (record { enabled = true; start = 9 * 60; end = 17 * 60 }) ++ off ∷ off ∷ [];
  grace_minutes = 10;
  active_override = none;
}

pub data ScheduleReason : Type 0 where
  disabled in_window outside_window override_run override_pause : ScheduleReason

pub record ScheduleDecision : Type 0 where
  pub allowed : Bool
  pub reason : ScheduleReason
  pub next_change_secs : Option ℕ

abbrev pub clamp_window : DayWindow → DayWindow
clamp_window d = record d { start = min d.start minutes_per_day; end = min d.end minutes_per_day }

-- `truncate(7)`, then OFF days up to seven.
unfoldable pub pad_days : List DayWindow → List DayWindow
pad_days days = let kept = take 7 days in kept ++ replicate (7 - length kept) off

abbrev pub live_override : ℕ → Option ScheduleOverride → Option ScheduleOverride
live_override now none = none
live_override now (some o) = if leb o.until now then none else some o

unfoldable pub normalize : ℕ → ProcessingSchedule → ProcessingSchedule
unfolding pad_days
normalize now s = record s {
  days = map clamp_window (pad_days s.days);
  grace_minutes = min s.grace_minutes (24 * 60);
  active_override = live_override now s.active_override;
}

pub record Window : Type 0 where
  pub opens : ℕ
  pub closes : ℕ

-- `checked_add_signed`: the day at offset `k - 1` from the anchor, if chrono has that day.
abbrev pub day_at : Calendar → ℕ → ℕ → Option ℕ
day_at cal anchor k =
    if ltb (anchor + k) 1
    then none
    else if ltb (anchor + k - 1) cal.days_end
    then some (anchor + k - 1)
    else none

abbrev pub weekday : Calendar → ℕ → ℕ
weekday cal day = (cal.first_weekday + day) % 7

unfoldable pub window_of : DayWindow → ℕ → Window
unfolding length_minutes
window_of w day =
    let opens = day * day_ns + w.start * minute_ns in
    record { opens = opens; closes = opens + length_minutes w * minute_ns }

-- The window of a day, where the day exists, has a row and is switched on.
abbrev pub day_window : ProcessingSchedule → Calendar → ℕ → Option DayWindow
day_window s cal day = elim (get_elem? s.days (weekday cal day)) [
  | none ↦ none
  | some w ↦ if w.enabled then some w else none
]

-- One round of the loop: each of the `continue`s leaves the windows as they are.
abbrev pub push_window : ℕ → Option DayWindow → List Window → List Window
push_window day none rest = rest
push_window day (some w) rest = window_of w day ∷ rest

abbrev pub push_day : ProcessingSchedule → Calendar → Option ℕ → List Window → List Window
push_day s cal none rest = rest
push_day s cal (some day) rest = push_window day (day_window s cal day) rest

-- The loop of `merged_windows` from offset `k - 1`, with `left` rounds to go.
unfoldable pub raw_windows : ProcessingSchedule → Calendar → ℕ → ℕ → ℕ → List Window
unfolding window_of
raw_windows s cal anchor k zero = []
raw_windows s cal anchor k (suc left) =
    push_day s cal (day_at cal anchor k) (raw_windows s cal anchor (suc k) left)

-- `sort_by_key` by the opening: a stable insertion sort.
unfoldable pub insert_window : Window → List Window → List Window
insert_window w [] = w ∷ []
insert_window w (v ∷ vs) =
    let later = insert_window w vs in if leb w.opens v.opens then w ∷ v ∷ vs else v ∷ later

unfoldable pub sort_windows : List Window → List Window
unfolding insert_window
sort_windows [] = []
sort_windows (w ∷ ws) = insert_window w (sort_windows ws)

-- The merging loop: `last` is `merged.last_mut()`, the end of what has been merged so far.
unfoldable pub merge_from : Window → List Window → List Window
merge_from last [] = last ∷ []
merge_from last (w ∷ ws) =
    let grown = merge_from (record last { closes = max last.closes w.closes }) ws in
    let apart = last ∷ merge_from w ws in if leb w.opens last.closes then grown else apart

unfoldable pub merge_windows : List Window → List Window
unfolding merge_from
merge_windows [] = []
merge_windows (w ∷ ws) = merge_from w ws

unfoldable pub merged_windows : ProcessingSchedule → Calendar → ℕ → List Window
unfolding raw_windows sort_windows merge_windows
merged_windows s cal anchor =
    merge_windows (sort_windows (raw_windows s cal anchor 0 (lookahead_days + 1)))

abbrev pub contains : ℕ → Window → Bool
contains t w = leb w.opens t && ltb t w.closes

unfoldable pub decide_windows : List Window → ℕ → ScheduleDecision
decide_windows windows now = elim (find (contains now) windows) [
  | some w ↦ record {
    allowed = true;
    reason = in_window;
    next_change_secs = some ((w.closes - now) / second_ns);
  }
  | none ↦ record {
    allowed = false;
    reason = outside_window;
    next_change_secs = elim (find (λ w. ltb now w.opens) windows) [
      | none ↦ none
      | some w ↦ some ((w.opens - now) / second_ns)
    ];
  }
]

abbrev pub mode_allows : OverrideMode → Bool
mode_allows run_mode = true
mode_allows pause_mode = false

abbrev pub mode_reason : OverrideMode → ScheduleReason
mode_reason run_mode = override_run
mode_reason pause_mode = override_pause

unfoldable pub decide_schedule : ProcessingSchedule → Calendar → ℕ → ScheduleDecision
unfolding decide_windows merged_windows
decide_schedule s cal now_local =
    if not s.enabled
    then record { allowed = true; reason = disabled; next_change_secs = none }
    else decide_windows (merged_windows s cal (now_local / day_ns)) now_local

-- `decide`, with the override taken out of the schedule.
unfoldable pub decide_under :
    Option ScheduleOverride → ProcessingSchedule → Calendar → ℕ → ℕ → ScheduleDecision
decide_under none s cal now_local now_utc = decide_schedule s cal now_local
decide_under (some o) s cal now_local now_utc =
    if ltb now_utc o.until
    then record {
      allowed = mode_allows o.mode;
      reason = mode_reason o.mode;
      next_change_secs = some ((o.until - now_utc) / second_ns);
    }
    else decide_schedule s cal now_local

unfoldable pub decide : ProcessingSchedule → Calendar → ℕ → ℕ → ScheduleDecision
decide s cal now_local now_utc = decide_under s.active_override s cal now_local now_utc

unfoldable pub claimable_kinds : List JobKind → ScheduleDecision → List JobKind
claimable_kinds configured decision =
    if decision.allowed then configured else filter bypasses_schedule configured
