-- ===== src/System.antt =====
-- The application as a whole: the requests and the jobs, one after the other.
pub mod Requests
pub mod Table
pub mod Untouched
pub mod Invariant
pub mod Charge
pub mod Journey
