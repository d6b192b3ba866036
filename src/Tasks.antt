-- ===== src/Tasks.antt =====
-- The scheduled jobs: src/tasks/tasks.service.ts, over the static repositories.
pub mod BookingJobs
pub mod Sweep
pub mod Clock
pub mod Schedule
pub mod Expiry
pub mod PaymentJobs
pub mod Confirmed
pub mod Lifecycle
pub mod Reminder
