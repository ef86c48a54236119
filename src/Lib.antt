-- ===== src/Lib.antt =====
-- Verification library of scribe-local: the core of a server that records meetings, transcribes them
-- through a graph of stages, and runs those stages from a queue in a database.
--
-- The parts and how they interact. A recording goes through the stages of `JobKind`. Each stage is a
-- row of the queue. A worker asks the schedule which kinds it may claim, claims a row, keeps its lease
-- alive while the stage runs, and then completes the row and enqueues the successors whose
-- predecessors are done, or records the failure, or puts the row back when the processing window
-- closes. A reaper takes back the rows of dead workers. The stages read audio, recognize speech and
-- speakers, merge both into a transcript, summarize it and index it. The API lets requests in by a
-- token or by the tailnet's word, and the server replaces its own binary by signed packages.
--
-- Files:
--   Common, Common/*: numbers, lists, signed numbers, text as code points, JSON values.
--   Types/Kind, Types/Dag, Types/Recording: crates/scribe-core/src/types.rs.
--   Queue/Table: the jobs table of migrations/0001_init.sql, with its unique index, its triggers, and
--     the ids and statuses of the recordings that its rows refer to.
--   Queue/Ops, Queue/Queries: crates/scribe-db/src/queue.rs, one definition for each method of `Db`.
--   Queue/Steps: any sequence of those calls by any workers; Queue/WellFormed: the invariant.
--   Queue/Keeping, Histories, Rows, Claim, Enqueue, Lease, Attempts, Ready: proofs.
--   Schedule/Policy: crates/scribe-core/src/schedule.rs.
--   Schedule/Gate: crates/scribe-pipeline/src/gate.rs, the worker's cache of the schedule.
--   Schedule/Normalize, Merge, Windows, Verdict, Stable, Decide, Staleness: proofs.
--   Worker/Window, Worker/World, Worker/Job: crates/scribe-pipeline/src/worker.rs, with the two
--     calls on recordings of crates/scribe-db/src/recordings.rs.
--   Worker/Grace, Cascade, Outcomes, Invariant, Starts, Completion, Endings, Success: proofs.
--   Transcript/Words, Transcript/Utterances, Transcript/Replies: the merge stage of
--     crates/scribe-pipeline/src/stages/merge.rs; Transcript/Fillers: src/fillers.rs of that crate.
--   Transcript/Tallies, Speakers, Grouping, Corrections: proofs.
--   Api/Range, Api/Settings, Api/Progress: crates/scribe-api/src/range.rs, handlers/schedule.rs with
--     crates/scribe-db/src/settings.rs, and the progress report of handlers/recordings.rs.
--   Api/Lifecycle: the endpoints of handlers/recordings.rs that complete, reprocess and rediarize a
--     recording, with the resets of crates/scribe-db/src/recordings.rs.
--   Api/ByteRanges, SettingsLaws, Stages, Restart: proofs.
--   Api/Auth: crates/scribe-api/src/auth.rs, with `AuthState` of state.rs; Api/Access: proofs.
--   Update/Errors, Package, Verify, Files, Apply: lib.rs, package.rs with manifest.rs, verify.rs and
--     apply.rs of crates/scribe-update/src, over a file system that maps paths to files.
--   Update/Archives, Trust, Swaps, Installs: proofs.
--   Speech/Wav, WavWriter: crates/scribe-asr/src/wav.rs; Speech/Tokens, Decode: src/real/asr.rs of
--     that crate.
--   Speech/WavFiles, Spread, Windows, Recovery: proofs.
--   Summary/Template: the ids of crates/scribe-core/src/summary_template.rs.
--   Summary/Parts, Condense, Reply, Stage: crates/scribe-pipeline/src/stages/summarize.rs, with
--     `upsert_summary` of crates/scribe-db/src/summaries.rs.
--   Summary/Titles: src/title.rs of crates/scribe-pipeline, with the automatic titles of
--     crates/scribe-db/src/recordings.rs; Summary/Chunks, Budget, Kept: proofs.
--   Index/Windows: crates/scribe-pipeline/src/stages/embed.rs, with the writes of
--     crates/scribe-db/src/chunks.rs; Index/Coverage, Rows: proofs.
--   Voices/Identities, Voices/Speakers: crates/scribe-pipeline/src/stages/diarize.rs, with
--     crates/scribe-db/src/recording_speakers.rs; Voices/Turns: the splitting of turns in
--     crates/scribe-asr/src/real/diarize.rs; Voices/Matching, Rows, Tiling: proofs.
--   Examples, Examples/*: runs at concrete inputs.
--
-- Time is a natural number: microseconds in the queue, as in a timestamptz, and nanoseconds in the
-- schedule, as in chrono; `now` is an argument of each statement. A statement of SQL is one atomic
-- step, and a call that makes two statements runs them together. `FOR UPDATE SKIP LOCKED` is a
-- predicate on ids, an argument of `claim_one`. An insert that the reference to `recordings` refuses
-- leaves the sequence of ids as it was, where PostgreSQL skips a number. The backoff of `fail` is
-- computed in `f64` in the source; the model has the exact number. The milliseconds of a transcript
-- are natural numbers, and differences of them are compared by addition. Whether a character is
-- alphanumeric is a parameter.
--
-- The arithmetic of `f32` is a record of operations with no laws (`Floats`, `Signal`, `Engine`), and
-- so are the recognizer, the signature scheme and the hash. The answers of the language model, the
-- vectors of the embedder, the parser of JSON, and whether the system grants a call on a file are
-- arguments.
--
-- Loops with fuel: the look ahead of the schedule has nine rounds, the passes over a span seven and
-- the condensing of a transcript four, as in the source. The walk over the chunks of a WAV file has
-- the length of the file, of which each round takes 8 bytes at least; the loop over the windows of a
-- recording has the number of its samples and one more, as each window holds a sample; the windows
-- of an utterance have its milliseconds and one more, as each moves by 40 seconds; and the frames of
-- a turn have the number of its samples, as a frame is not empty.
--
-- Not modelled: network and process I/O, the clustering of voices and the models of speech behind
-- their interface, the loading of models and of the configuration, the search, the dispatch of mcp,
-- the uploads of segments, the inline driver, the calls that only move fields between SQL, JSON and
-- structs, the wording of templates and prompts, the iOS app, and the deployment.
pub mod Common
pub mod Update
pub mod Speech
pub mod Summary
pub mod Index
pub mod Voices
pub mod Types
pub mod Queue
pub mod Schedule
pub mod Worker
pub mod Transcript
pub mod Api
mod Examples
