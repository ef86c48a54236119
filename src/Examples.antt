-- ===== src/Examples.antt =====
-- Runs of the model on concrete tables, schedules and stages.
mod Rows
mod QueueRuns
mod ScheduleRuns
mod WorkerRuns
mod TranscriptRuns
mod ApiRuns
mod LifecycleRuns
mod UpdateRuns
mod SpeechRuns
mod SummaryRuns
mod VoiceRuns
