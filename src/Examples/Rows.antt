-- ===== src/Examples/Rows.antt =====
-- The tables that the runs start from.
use scribe_local.Common.{refl, [], ◌∷◌, arith}
use scribe_local.Common.Int.{pos}
use scribe_local.Common.Text.{Text, codes}
use scribe_local.Common.Json.{object, end}
use scribe_local.Types.Kind.{transcode, diarize}
use scribe_local.Types.Recording.{processing}
use scribe_local.Queue.Table.{Job, Db}
use scribe_local.Queue.Ops.{fresh_job, claim, complete_job, park_job}
use scribe_local.Queue.WellFormed.{IsWellFormed}
use scribe_local.Worker.World.{World}

abbrev pub worker_one : Text
worker_one = codes "one"

abbrev pub queued_row : Job
queued_row = fresh_job 100 1 7 transcode (object end) (pos 0)

abbrev pub held_row : Job
held_row = claim 200 worker_one queued_row

abbrev pub parked_row : Job
parked_row = park_job 3 (codes "stage failed") queued_row

abbrev pub done_row : Job
done_row = complete_job queued_row

abbrev pub table_of : Job → Db
table_of j = record { jobs = j ∷ []; next_id = 2; notices = []; statuses = (7, processing) ∷ [] }

abbrev pub two_rows : Db
two_rows = record {
  jobs = queued_row ∷ fresh_job 100 2 8 diarize (object end) (pos 5) ∷ [];
  next_id = 3;
  notices = [];
  statuses = (7, processing) ∷ (8, processing) ∷ [];
}

pub two_rows-IsWellFormed : IsWellFormed two_rows
two_rows-IsWellFormed = record {
  unique = refl;
  locks = (refl, (refl, tt));
  ids = (omega arith, (omega arith, omega arith));
}

pub held-IsWellFormed : IsWellFormed (table_of held_row)
held-IsWellFormed = record { unique = refl; locks = (refl, tt); ids = (omega arith, omega arith) }

abbrev pub world_of : Job → World
world_of j = record { queue = table_of j; untranscribed = λ _. 0 }
