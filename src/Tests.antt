-- ===== src/Tests.antt =====
-- The theorems at concrete inputs, and runs of the definitions on small data.
mod Fixture
mod Queries
mod Claims
mod Config
mod Catalog
mod Overlaps
mod Worker
mod Starts
mod Options
mod Batches
mod Accounts
mod Routes
mod Events
mod System
mod Faults
mod Starting
