-- ===== src/Status.antt =====
-- js/status: the pages on servers and jobs.
pub mod Servers
pub mod Server
pub mod Jobs
pub mod Job
pub mod Config
