-- ===== src/Util.antt =====
-- js/util, and the idioms that the pages share.
pub mod Formatter
pub mod Idioms
pub mod Common
pub mod Dashboard
pub mod Pickers
