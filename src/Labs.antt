-- ===== src/Labs.antt =====
-- The course framework under 6.5840/src: the simulated network and what the servers are built on.
pub mod Labrpc
pub mod Calls
pub mod Persister
pub mod KvModel
pub mod Clerks
pub mod Labgob
pub mod Harness
pub mod Cluster
pub mod Leaders
pub mod Minority
pub mod RaftNet
pub mod RaftLogs
mod Tests
mod ClerkTests
mod HarnessTests
mod RaftTests
mod LabgobTests
