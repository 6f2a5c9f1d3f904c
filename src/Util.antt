-- ===== src/Util.antt =====
-- include/mpcc/util and src/util: threads and the log.
pub mod Threads
pub mod Logger
