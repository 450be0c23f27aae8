-- ===== src/Tests.antt =====
-- Runs at concrete inputs, and each theorem with a hypothesis at an input that meets it.
mod Generator
mod Manager
mod Connections
mod Messages
mod Plan
mod Tracing
mod Runs
mod Nodes
mod Commands
mod WholeRuns
mod Together
