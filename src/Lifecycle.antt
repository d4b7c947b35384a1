-- ===== src/Lifecycle.antt =====
-- What the calls on the database make of a query: a state machine, its invariant, and its laws.
pub mod Phase
pub mod Calls
pub mod Notices
pub mod Edits
pub mod Steps
pub mod Kept
pub mod Effects
pub mod Valid
pub mod Reports
pub mod Refinement
