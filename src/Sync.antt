-- ===== src/Sync.antt =====
-- The current-season synchronisation of backend/src/vlytics/ops/sync.py.
pub mod Scope
pub mod Planner
pub mod Coverage
pub mod Dispatcher
pub mod Handler
pub mod Ticker
mod Settled
mod Planned
mod Read
mod Ticked
mod Counted
mod Tests
mod TickTests
