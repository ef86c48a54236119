-- ===== src/Queue/Ready.antt =====
-- `predecessors_done`: when a stage may be enqueued.
use scribe_local.Common.{ℕ, ◌≡◌, true, any, All, arith, ◌↔◌}
use scribe_local.Types.Kind.{JobKind, transcode, predecessors}
use scribe_local.Queue.Table.{Db}
use scribe_local.Queue.Queries.{is_done_job, count_done, predecessors_done}

-- The stage is ready exactly if the recording has a done job of every predecessor.
pub predecessors_done_lem :
    (recording : ℕ) (kind : JobKind) (db : Db)
    → (predecessors_done recording kind db ≡ true)
      ↔ All (λ p. any (is_done_job recording p) db.jobs ≡ true) (predecessors kind)
unfolding predecessors_done count_done predecessors
predecessors_done_lem recording transcode db = ground arith
predecessors_done_lem recording _ db = ground arith
