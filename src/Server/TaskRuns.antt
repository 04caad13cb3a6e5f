-- ===== src/Server/TaskRuns.antt =====
-- server/src/application/task_run_service.cpp and server/src/postgres/task_run_repository.cpp.
pub mod Table
pub mod Repository
pub mod Requests
pub mod Start
pub mod Operator
pub mod Effects
pub mod Calls
pub mod ServiceCalls
pub mod Steps
pub mod Invariant
pub mod OneNode
pub mod History
pub mod Granted
pub mod Replays
pub mod Scheduled
pub mod FailedFiles
pub mod Refusals
mod Samples
