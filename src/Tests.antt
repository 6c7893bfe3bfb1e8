-- ===== src/Tests.antt =====
-- Runs of the model at concrete inputs, and the theorems at inputs that meet their hypotheses.
mod ProtocolRuns
mod CommandRuns
mod QueueRuns
mod WatchdogRuns
mod StoreRuns
mod RuntimeRuns
mod ServiceRuns
mod SequenceRuns
mod RateRuns
mod ClockRuns
mod ExecutorRuns
mod TimeRuns
mod WatchdogLog
mod WaitRuns
