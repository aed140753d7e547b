-- ===== src/Exec.antt =====
-- v2/src/execution-core: planning the execution of a signal, the durable queue of commands, the worker
-- that executes them, and the events.
pub mod Types
pub mod Status
pub mod Commands
pub mod Repository
pub mod Queue
pub mod Reserved
pub mod Machine
mod Tests
mod DispatchTests
pub mod Manager
pub mod Capabilities
pub mod Gates
pub mod Planner
pub mod Worker
pub mod Key
pub mod Replay
pub mod Accepted
pub mod AtMostOnce
