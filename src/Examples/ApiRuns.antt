-- ===== src/Examples/ApiRuns.antt =====
-- Runs of the API.
use scribe_local.Common.{ℕ, ◌≡◌, refl, false, List, [], ◌∷◌, none, some, arith}
use scribe_local.Common.Text.{codes}
use scribe_local.Queue.Table.{Job}
use scribe_local.Schedule.Policy.{Calendar, ProcessingSchedule, decide}
use scribe_local.Api.Range.{Response, serve_file_range}
use scribe_local.Api.ByteRanges.{IsAnswer, serve_file_range-IsAnswer}
use scribe_local.Api.Settings.{absent, processing_schedule, saved, pause, set_override}
use scribe_local.Api.SettingsLaws.{set_override-pauses}
use scribe_local.Examples.Rows.{held_row, done_row}

abbrev file : List ℕ
file = 10 ∷ 20 ∷ 30 ∷ 40 ∷ []

serve_file_range-IsAnswer_example :
    (r : Response) × (serve_file_range (some file) (some (codes "bytes=1-2")) ≡ some r)
    × IsAnswer file r
serve_file_range-IsAnswer_example = serve_file_range-IsAnswer file (some (codes "bytes=1-2"))

abbrev jobs : List Job
jobs = done_row ∷ held_row ∷ []

abbrev calendar : Calendar
calendar = record { first_weekday = 0; days_end = 1000 }

set_override-pauses_example :
    (s : ProcessingSchedule) × (set_override 500 (record { mode = pause; minutes = none }) absent
      ≡ saved s)
    × (s.days ≡ (processing_schedule 500 absent).days)
    × ((decide s calendar 700 600).allowed ≡ false)
set_override-pauses_example =
    set_override-pauses 500 absent none calendar 700 600 refl (omega arith)
