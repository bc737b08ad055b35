-- ===== src/Tests.antt =====
-- The theorems at concrete inputs, and runs of the definitions.
mod SampleWorld
mod RegistryRuns
mod RouterRuns
mod TraceRuns
mod CallRuns
mod AmqpRuns
mod HandlerRuns
mod SystemRuns
mod DeclarationRuns
mod FormatRuns
mod TaskRuns
mod ServiceRuns
mod MainRuns
mod ReferenceRuns
mod CommandRuns
mod ConnectionRuns
