-- ===== src/Tasks/BookingJobs.antt =====
-- The jobs that move bookings through their states: `handleBookingsInProgress`,
-- `handleFinshedBookings`, `handleCancelBookings` and `handleCancelCryptoBookings` of
-- src/tasks/tasks.service.ts. `now` is the clock when the job runs.
use sojourn_backend.Prelude.{
  ℕ, Bool, true, false, not, ◌&&◌, ◌||◌, Option, none, some, leb, ltb, holds, is_set, if◌then◌else◌,
}
use sojourn_backend.Entities.{
  Booking, BookingStatus, Payment, is_cancelled, is_pending, is_completed,
}
use sojourn_backend.Orm.{Orm}
use sojourn_backend.App.{World, Handler, Result, ok, err, Exception, set_bookings, promise_all}

-- What one call of a job's callback does with its booking: save it, leave it, or throw.
abbrev pub Step : Type 0
Step = Booking → Result (Option Booking)

-- The callback of `handleBookingsInProgress`.
unfoldable pub progress_booking : ℕ → Step
progress_booking now b =
    if leb b.check_in now && (ltb now b.check_out && not (is_cancelled b.status))
    then ok (some (record b { status = BookingStatus.processing; holding_window = none }))
    else if ltb now b.check_in && not (is_cancelled b.status)
    then ok (some (record b { status = BookingStatus.paid_pending; holding_window = none }))
    else ok none

-- The callback of `handleFinshedBookings`.
unfoldable pub finish_booking : ℕ → Step
finish_booking now b =
    if leb b.check_out now && not (is_cancelled b.status)
    then ok (some (record b { status = BookingStatus.finished; holding_window = none }))
    else ok none

-- The callbacks of `handleCancelBookings` (`crypto` false) and `handleCancelCryptoBookings`
-- (`crypto` true), on the booking and its payment. They differ in the test of the address.
unfoldable pub expire_booking : Bool → ℕ → (Booking → Option Payment) → Step
expire_booking crypto now payment_of b = elim b.holding_window [
  | none ↦ ok none
  | some window ↦ elim (payment_of b) [
    | none ↦ err Exception.type_error
    | some p ↦
        if is_completed p.payment_status
          || (if crypto
              then not (is_set b.crypto_payment_address)
              else is_set b.crypto_payment_address)
        then ok none
        else if leb window now
        then ok (some (record b { status = BookingStatus.cancelled; holding_window = none }))
        else ok none
  ]
]

module _ (orm : Orm) where
  -- The relation `booking.payment`: the payment whose foreign key is the booking.
  unfoldable pub payment_of : World → Booking → Option Payment
  payment_of w b = orm.find_one Payment (λ p. holds p.booking_id b.id) w.payments

  -- The `where` clause `{ payment: { paymentStatus: COMPLETED } }` of `getAllNoConstraints`.
  unfoldable pub is_paid_for : World → Booking → Bool
  unfolding payment_of
  is_paid_for w b = elim (payment_of w b) [ none ↦ false | some p ↦ is_completed p.payment_status ]

  -- `StaticBookingsRepository.save` of what a callback returns.
  unfoldable pub save_step : Result (Option Booking) → Handler (Unit {0})
  save_step (err e) w = (err e, w)
  save_step (ok none) w = (ok tt, w)
  save_step (ok (some b)) w = (ok tt, set_bookings (orm.save Booking (λ x. x.id) b w.bookings) w)

  -- A job: the rows that are found, and the callback on each. Relations are loaded with them.
  unfoldable pub sweep : (World → Booking → Bool) → (World → Step) → Handler (Unit {0})
  unfolding save_step promise_all
  sweep clause step w =
      promise_all (orm.find Booking (clause w) w.bookings) (λ b. save_step (step w b)) w

  unfoldable pub handle_bookings_in_progress : ℕ → Handler (Unit {0})
  handle_bookings_in_progress now = sweep is_paid_for (λ w. progress_booking now)

  unfoldable pub handle_finished_bookings : ℕ → Handler (Unit {0})
  handle_finished_bookings now = sweep is_paid_for (λ w. finish_booking now)

  -- `getAllBookings`: the pending ones
  unfoldable pub handle_cancel_bookings : ℕ → Handler (Unit {0})
  handle_cancel_bookings now =
      sweep (λ w b. is_pending b.status) (λ w. expire_booking false now (payment_of w))

  unfoldable pub handle_cancel_crypto_bookings : ℕ → Handler (Unit {0})
  handle_cancel_crypto_bookings now =
      sweep (λ w b. is_pending b.status) (λ w. expire_booking true now (payment_of w))
