-- ===== src/Tests/Histories.antt =====
-- Histories of requests and jobs on the sample rows.
use sojourn_backend.Prelude.{◌≡◌, refl, true, some, none, List, [], ◌∷◌, ℕ, All, inl, arith, ◌+ℤ◌}
use sojourn_backend.Entities.{Booking, BookingStatus, Payment, PaymentStatus}
use sojourn_backend.App.{World, ok}
use sojourn_backend.Booking.Availability.{
  check_availability_of_listing, conflicts, is_active_booking,
}
use sojourn_backend.Time.{number_of_nights}
use sojourn_backend.Checkout.Validation.{validate_checkout}
use sojourn_backend.Checkout.Initialize.{initialize_transaction}
use sojourn_backend.Webhook.Message.{WebhookDto, charge_success}
use sojourn_backend.Webhook.Confirm.{booking_of}
use sojourn_backend.Tasks.BookingJobs.{handle_bookings_in_progress, handle_finished_bookings}
use sojourn_backend.Tasks.Clock.{status_at, FollowsClock}
use sojourn_backend.Tasks.Schedule.{run_jobs, in_progress, finished_job}
use sojourn_backend.Tasks.Lifecycle.{Follows, IsTimely, jobs_follow_lifecycle}
use sojourn_backend.System.Requests.{
  Request, checkout, cancellation, webhook, bookings_in_progress, finished_bookings, serve_all,
}
use sojourn_backend.System.Table.{IsSound, own-Apart}
use sojourn_backend.System.Invariant.{history_never_double_books, clock_settles_history}
use sojourn_backend.System.Journey.{paid_stay_follows_clock}
use sojourn_backend.Tests.Database.{list_orm}
use sojourn_backend.Tests.Samples.{
  on, booking, payment, villa, guest, owner, sample, request, charge,
}
use sojourn_backend.Tests.Checkouts.{accepted, accepting}

-- One booking that is paid for.
abbrev one_stay : World
one_stay = record sample {
  bookings = booking 10 BookingStatus.paid_pending none ∷ [];
  payments = payment 1 10 PaymentStatus.completed ∷ [];
}

stay-IsTimely : (now : ℕ) → IsTimely now (booking 10 BookingStatus.paid_pending none)
stay-IsTimely now = record {
  in_order = omega arith;
  begun = λ e. absurd (ground arith);
  ended = λ e. absurd (ground arith);
}

one_stay-IsSound : (now : ℕ) → IsSound now one_stay.bookings
one_stay-IsSound now = record {
  unique = ((λ e. refl, tt), tt);
  timely = (stay-IsTimely now, tt);
  apart = ((own-Apart (booking 10 BookingStatus.paid_pending none), tt), tt);
}

-- Another stay is booked while the first is under way, which is then cancelled.
abbrev history : List (ℕ × Request)
history =
    (on 4, bookings_in_progress)
    ∷ (on 5, checkout accepting request)
    ∷ (on 5, cancellation 10)
    ∷ (on 11, finished_bookings)
    ∷ []

history_never_double_books_example :
    IsSound (on 11) (serve_all list_orm true history one_stay).bookings
history_never_double_books_example =
    history_never_double_books list_orm true (on 2) history one_stay
      (omega arith, (omega arith, (omega arith, (omega arith, tt)))) (one_stay-IsSound (on 2))

clock_settles_history_example :
    let v = serve_all list_orm true history one_stay in
    let v' = (handle_bookings_in_progress list_orm (on 11) v).1 in
    All (FollowsClock list_orm v (on 11)) (handle_finished_bookings list_orm (on 11) v').1.bookings
clock_settles_history_example =
    clock_settles_history list_orm true (on 2) (on 11) history one_stay
      (omega arith, (omega arith, (omega arith, (omega arith, tt)))) (one_stay-IsSound (on 2))

abbrev paid_message : WebhookDto
paid_message = record {
  event = charge_success;
  payload = some (record charge { reference = some 900 });
}

paid_stay_follows_clock_example :
    let v =
      serve_all list_orm true
        ((on 5, checkout accepting request)
          ∷ (on 6, webhook (λ m. 1 ∷ []) paid_message (1 ∷ []))
          ∷ (on 11, bookings_in_progress)
          ∷ (on 11, finished_bookings)
          ∷ [])
        one_stay in
    (p : Payment) × ((initialize_transaction list_orm accepting true (on 5) request one_stay).0
      ≡ ok p)
    × (b : Booking) × (booking_of list_orm v p ≡ some b)
    × (b.check_in ≡ on 10)
    × (b.check_out ≡ on 12)
    × (b.status ≡ status_at (on 11) b)
unfolding list_orm validate_checkout check_availability_of_listing conflicts is_active_booking
    number_of_nights ◌+ℤ◌
paid_stay_follows_clock_example =
    paid_stay_follows_clock list_orm accepting true (on 5) (on 6) (on 11) request one_stay villa
      guest owner accepted (λ m. 1 ∷ []) paid_message (record charge { reference = some 900 })
      (one_stay-IsSound (on 5)) (λ i e. inl (ground arith), tt) (λ e. absurd (ground arith), tt)
      refl refl refl refl refl refl refl refl refl refl refl

jobs_follow_lifecycle_example :
    All
      (λ b. b.id ≡ 10 → Follows BookingStatus.paid_pending b.status)
      (run_jobs list_orm (in_progress (on 4) ∷ finished_job (on 7) ∷ []) one_stay).bookings
jobs_follow_lifecycle_example =
    jobs_follow_lifecycle BookingStatus.paid_pending 10 list_orm
      (in_progress (on 4) ∷ finished_job (on 7) ∷ []) (on 2) one_stay
      (omega arith, (omega arith, tt)) (λ e. (refl, stay-IsTimely (on 2)), tt)
