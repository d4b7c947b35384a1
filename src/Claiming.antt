-- ===== src/Claiming.antt =====
-- Which query is claimed, and for which worker (`_WORKER_FOR_QUERY_SQL`, `claim_pending_query`).
pub mod Chosen
pub mod Oldest
pub mod Load
pub mod Outcome
pub mod Safety
pub mod Guarantees
pub mod Overlap
