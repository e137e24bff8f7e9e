-- ===== src/Scheduler.antt =====
-- The scheduler of backend/src/vlytics/ops/scheduler.py.
pub mod Timing
pub mod Dispatcher
pub mod Pool
pub mod Lifecycle
pub mod Planner
mod Planned
mod Lawful
mod Reconciled
mod Stopped
mod Replayed
mod Renewed
mod Concluded
mod OnTime
mod Settled
mod PlanTests
mod LifecycleTests
mod Tests
