-- ===== src/Query.antt =====
-- The query engine of backend/application/session/session_query_engine.py, which runs a user's
-- request against the agent.
pub mod Command
mod Examples
mod RunExamples
pub mod Prepare
pub mod Answer
pub mod Finish
pub mod Queue
pub mod Binding
pub mod Stream
pub mod Run
pub mod LockPool
pub mod Rewind
