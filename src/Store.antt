-- ===== src/Store.antt =====
-- services/state_store.py: the tables of StateStore, one child for each, and what spans them.
pub mod InlineSessions
pub mod Payments
pub mod Jobs
pub mod RateLimit
pub mod Access
pub mod Groups
pub mod Cache
pub mod Events
pub mod Runtime
