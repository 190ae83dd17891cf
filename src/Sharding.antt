-- ===== src/Sharding.antt =====
-- The strategies that share the items of a job among its running instances
-- (elastic-job-lite-core/src/main/java/io/elasticjob/lite/api/strategy).
pub mod Average
pub mod Odevity
pub mod Rotate
pub mod Service
pub mod Election
pub mod Items
pub mod Facade
pub mod Crash
