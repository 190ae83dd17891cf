-- ===== src/Global.antt =====
-- js/global: the registry centers and the event trace data sources.
pub mod RegCenter
pub mod DataSource
