-- ===== src/Tests.antt =====
-- Runs at concrete inputs, and the theorems at concrete inputs.
mod Toy
mod LogRuns
mod LedgerRuns
mod WorkerRuns
mod OutboundRuns
mod ServiceRuns
mod GatewayRuns
