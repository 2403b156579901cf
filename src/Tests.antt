-- ===== src/Tests.antt =====
-- Runs of the development on a small project: the operations as a hub would send them, and the
-- theorems at those runs.
pub mod Project
pub mod Runs
pub mod LedgerRuns
pub mod TaskRuns
pub mod MergeRuns
pub mod DocRuns
pub mod HubRuns
pub mod CreatedRuns
pub mod TriageRuns
