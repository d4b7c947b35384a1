-- ===== src/Recovery.antt =====
-- How the running queries of a worker that is gone are taken back, and where they are not.
pub mod Swept
pub mod Unreachable
pub mod Stranded
