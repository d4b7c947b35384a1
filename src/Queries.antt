-- ===== src/Queries.antt =====
-- db/queries.py and db/notify.py: the statements on workers and queries. One child for each group of
-- functions. Each function takes the database, the clock readings and the identifiers that it draws,
-- and returns the new database with its result; a transaction is one such step. `now` is the
-- database's clock, `utcnow` the coordinator's.
pub mod Notify
pub mod Workers
pub mod Life
pub mod Stale
pub mod Claim
