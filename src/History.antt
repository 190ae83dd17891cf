-- ===== src/History.antt =====
-- js/history: the pages on the executions and the status of jobs.
pub mod Markup
pub mod Link
pub mod Trace
pub mod Status
