-- ===== src/Tests/Stays.antt =====
-- Nights, free listings and cancellations on the sample rows.
use sojourn_backend.Prelude.{Option, false, ◌≡◌, ◌↔◌, ◌⊎◌, true, none, [], ◌∷◌, All, arith}
use sojourn_backend.Entities.{Booking, BookingStatus}
use sojourn_backend.App.{World, ok, err, Exception}
use sojourn_backend.App.Transaction.{intercept, rolled_back}
use sojourn_backend.Booking.Availability.{
  ListingDates, SharesInstant, is_active_booking, check_availability_of_listing, available_iff,
  BeginsWithin,
}
use sojourn_backend.Booking.Cancellation.{cancel_booking, cancel_atomic, CancelsOnly}
use sojourn_backend.Tests.Database.{list_orm}
use sojourn_backend.Tests.Samples.{on, booking, sample}

-- The days 5 to 8, which the sample bookings reach into, and 10 to 12, which are free.
abbrev overlapping : ListingDates
overlapping = record { property_id = 20; check_in_date = on 5; check_out_date = on 8 }

available_iff_example :
    ((check_availability_of_listing list_orm false overlapping sample).0 ≡ ok true)
    ↔ All
        (λ b.
          (is_active_booking 20 b ≡ true → ¬ SharesInstant overlapping b)
          × ¬ BeginsWithin overlapping b)
        sample.bookings
available_iff_example = available_iff list_orm overlapping sample (omega arith)

abbrev cancelled_world : World
cancelled_world = record sample { bookings = booking 10 BookingStatus.cancelled none ∷ [] }

cancel_atomic_example :
    let r = intercept (cancel_booking list_orm 10) sample in
    ((e : Exception) × (r.0 ≡ err e) × (r.1 ≡ rolled_back sample r.1))
    ⊎ ((b : Option Booking) × (r.0 ≡ ok b) × CancelsOnly list_orm 10 sample.bookings r.1.bookings)
cancel_atomic_example = cancel_atomic list_orm 10 sample
