-- ===== src/Worker.antt =====
-- The worker process: ducklauncher/worker and what apps/worker.py and config.py do for it.
pub mod Executor
pub mod Threads
pub mod Places
pub mod Conserved
pub mod Interrupts
pub mod Handlers
pub mod Registration
pub mod Startup
pub mod Lifespan
pub mod Reports
pub mod Dispatches
pub mod Attempts
pub mod Dict
pub mod Catalog
pub mod Metrics
