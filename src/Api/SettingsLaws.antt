-- ===== src/Api/SettingsLaws.antt =====
-- What the schedule's endpoints save, and what the saved schedule then decides.
use scribe_local.Common.{
  ℕ, ◌+◌, ◌*◌, ◌≤◌, ◌<◌, ◌≡◌, refl, ap, true, false, List, [], ◌∷◌, Option, none, some, ltb, ◌==◌,
  length, All, Bool-cases, Option-cases, inl, inr, arith, ◌↔◌, ==_iff,
}
use scribe_local.Common.Int.{ℤ, pos, pos_part}
use scribe_local.Schedule.Policy.{
  Calendar, DayWindow, OverrideMode, run_mode, pause_mode, ScheduleOverride, ProcessingSchedule,
  minutes_per_day, minute_ns, decide, decide_under,
}
use scribe_local.Schedule.Normalize.{IsUnexpired, normalize-IsNormal, normalize_fixed}
use scribe_local.Api.Settings.{
  Setting, read_setting, processing_schedule, set_processing_schedule, saved, is_bad_day,
  first_bad_day, validate_days, SetScheduleRequest, set_schedule, run, pause, minutes_or,
  is_allowed, timed_override, save_override, set_override,
}

-- Both edges of every day are within the day.
abbrev pub AreDays : List DayWindow → Type 0
AreDays days = All (λ d. (d.start ≤ minutes_per_day) × (d.end ≤ minutes_per_day)) days

first_bad_day_lem : (i : ℕ) (days : List DayWindow) → (first_bad_day i days ≡ none) ↔ AreDays days
unfolding first_bad_day
first_bad_day_lem i [] = ((λ _. tt), λ _. refl)
first_bad_day_lem i (d ∷ ds) = elim (Bool-cases (is_bad_day d)) [
  | inl bad ↦ rw bad ((λ h. absurd (ground arith)), λ h. absurd (ground (arith, h.0)))
  | inr good ↦
      let rest = first_bad_day_lem (i + 1) ds in
      rw good ((λ h. (ground arith, rest.0 h)), λ h. rest.1 h.1)
]

-- The days of a request are accepted exactly if there are seven, each with both edges within the
-- day.
pub validate_days_lem :
    (days : List DayWindow) → (validate_days days ≡ none) ↔ ((length days ≡ 7) × AreDays days)
unfolding validate_days
validate_days_lem days = elim (Bool-cases (length days == 7)) [
  | inr other ↦ rw other ((λ h. absurd (ground arith)), λ h. absurd (ground (arith, h.0)))
  | inl seven ↦
      let days_iff = first_bad_day_lem 0 days in
      elim (Option-cases (first_bad_day 0 days)) [
        | inl e ↦
            rw (seven, e, validate_days)
              ((λ _. ((==_iff (length days) 7).0 seven, days_iff.0 e)), λ _. refl)
        | inr (i, e) ↦
            rw (seven, e, validate_days)
              ((λ h. absurd (ground arith)), λ h. absurd (ground (arith, days_iff.1 h.1)))
      ]
]

module _ (now : ℕ) (setting : Setting) where
  fresh : IsUnexpired now (processing_schedule now setting).active_override
  unfolding processing_schedule
  fresh = (normalize-IsNormal now (read_setting setting)).fresh

  -- A request with valid days and a grace of at most a day is saved as it was sent, with the
  -- override that is still running, if any, kept.
  pub set_schedule_lem :
      (req : SetScheduleRequest)
      → validate_days req.days ≡ none
      → req.grace_minutes ≤ 1440
      → set_schedule now req setting
        ≡ saved (record {
          enabled = req.enabled;
          days = req.days;
          grace_minutes = req.grace_minutes;
          active_override = (processing_schedule now setting).active_override;
        })
  unfolding set_schedule set_processing_schedule
  set_schedule_lem req valid short =
      let days = (validate_days_lem req.days).0 valid in
      let within : ltb (24 * 60) req.grace_minutes ≡ false = ground arith in
      rw (valid, set_schedule)
        (rw within (
          ap saved (
            normalize_fixed now _
              (record { seven = days.0; edges = days.1; grace = short; fresh = fresh }))))

  saved_override :
      (o : Option ScheduleOverride)
      → IsUnexpired now o
      → save_override now setting o
        ≡ saved (record (processing_schedule now setting) { active_override = o })
  unfolding set_processing_schedule processing_schedule
  saved_override o h =
      let n = normalize-IsNormal now (read_setting setting) in
      ap saved (
        normalize_fixed now _
          (record { seven = n.seven; edges = n.edges; grace = n.grace; fresh = h }))

  timed :
      (mode : OverrideMode) (m : ℤ)
      → is_allowed m ≡ true
      → timed_override now setting mode m
        ≡ saved (record (processing_schedule now setting) {
          active_override = some (record { mode = mode; until = now + pos_part m * minute_ns });
        })
  timed mode m ok = rw ok (
      saved_override (some (record { mode = mode; until = now + pos_part m * minute_ns }))
        (later m ok))
    where
      later : (m : ℤ) → is_allowed m ≡ true → now < now + pos_part m * minute_ns
      later (pos n) h = ground arith
      later (ℤ.negsuc n) h = absurd (ground arith)

  -- A pause for an allowed number of minutes (an hour if none is given) is saved, and until they
  -- are over the saved schedule denies processing, whatever its windows, its days and the local time.
  pub set_override-pauses :
      (minutes : Option ℤ) (cal : Calendar) (local t : ℕ)
      → is_allowed (minutes_or minutes) ≡ true
      → t < now + pos_part (minutes_or minutes) * minute_ns
      → (s : ProcessingSchedule) × (set_override now
            (record { mode = pause; minutes = minutes })
            setting
          ≡ saved s)
        × (s.days ≡ (processing_schedule now setting).days)
        × ((decide s cal local t).allowed ≡ false)
  unfolding set_override decide decide_under
  set_override-pauses minutes cal local t ok soon = (
    record (processing_schedule now setting) {
      active_override =
          some
            (record { mode = pause_mode; until = now + pos_part (minutes_or minutes) * minute_ns });
    },
    timed pause_mode (minutes_or minutes) ok,
    refl,
    ground arith,
  )

  -- Asking to run does the same with processing allowed.
  pub set_override-runs :
      (minutes : Option ℤ) (cal : Calendar) (local t : ℕ)
      → is_allowed (minutes_or minutes) ≡ true
      → t < now + pos_part (minutes_or minutes) * minute_ns
      → (s : ProcessingSchedule) × (set_override now
            (record { mode = run; minutes = minutes })
            setting
          ≡ saved s)
        × (s.days ≡ (processing_schedule now setting).days)
        × ((decide s cal local t).allowed ≡ true)
  unfolding set_override decide decide_under
  set_override-runs minutes cal local t ok soon = (
    record (processing_schedule now setting) {
      active_override =
          some
            (record { mode = run_mode; until = now + pos_part (minutes_or minutes) * minute_ns });
    },
    timed run_mode (minutes_or minutes) ok,
    refl,
    ground arith,
  )
