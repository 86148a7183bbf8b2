-- ===== src/Persist.antt =====
-- src/persist-unix: the files behind the log and the persistent fields.
pub mod Disk
pub mod Fields
pub mod Log
