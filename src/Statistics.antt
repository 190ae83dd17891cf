-- ===== src/Statistics.antt =====
-- What the tables of the console are told: internal/statistics of
-- elastic-job-lite-lifecycle/src/main/java/io/elasticjob/lite/lifecycle, for one job, one server of a job
-- and one item of a job.
pub mod Jobs
pub mod Items
pub mod Shown
pub mod OnServer
