-- ===== src/System.antt =====
-- The coordinator and its workers together: worker/routes.py, coordinator/scheduler.py and the calls
-- of db/queries.py, interleaved in any order.
pub mod Nodes
pub mod Steps
pub mod Calls
pub mod Limits
pub mod Twice
pub mod Explained
pub mod Texts
pub mod Provenance
pub mod Kept
pub mod Traced
pub mod Lost
pub mod Progress
pub mod Refusal
pub mod Calm
pub mod Waiting
pub mod Placed
pub mod Answering
pub mod Executing
pub mod Once
