-- ===== src/Booking.antt =====
-- Bookings: src/bookings/bookings.service.ts and src/repositories/bookings.repository.ts,
-- with src/utils/bookings-utils.ts.
pub mod Availability
pub mod Cancellation
pub mod Views
pub mod Shown
