-- ===== src/Tasks/Clock.antt =====
-- What the two clock jobs bring about: `handleBookingsInProgress` and `handleFinshedBookings`.
use sojourn_backend.Prelude.{ℕ, ◌≤◌, ◌<◌, ◌≡◌, true, false, All-zip, All, ltb, if◌then◌else◌, arith}
use sojourn_backend.Entities.{Booking, BookingStatus, is_cancelled}
use sojourn_backend.Orm.{Orm}
use sojourn_backend.App.{World}
use sojourn_backend.Tasks.BookingJobs.{
  progress_booking, finish_booking, is_paid_for, payment_of, handle_bookings_in_progress,
  handle_finished_bookings, sweep,
}
use sojourn_backend.Tasks.Sweep.{
  UniqueIds, Leaves, Saves, leaves, saves, sweep_settles, sweep-All, sweep-UniqueIds,
  payments-sweep,
}

-- The specification: the status of a paid booking is read off the clock.
abbrev pub status_at : ℕ → Booking → BookingStatus
status_at now b =
    if ltb now b.check_in
    then BookingStatus.paid_pending
    else if ltb now b.check_out
    then BookingStatus.processing
    else BookingStatus.finished

module _ (orm : Orm) where
  -- A booking that is paid for and not cancelled has the status that the clock gives it.
  abbrev pub FollowsClock : World → ℕ → Booking → Type 0
  FollowsClock w now b =
      is_paid_for orm w b ≡ true → is_cancelled b.status ≡ false → b.status ≡ status_at now b

  abbrev FollowsUntilEnd : World → ℕ → Booking → Type 0
  FollowsUntilEnd w now b = now < b.check_out → FollowsClock w now b

  progress-FollowsUntilEnd :
      (w : World) (now : ℕ) (b : Booking)
      → b.check_in ≤ b.check_out
      → Leaves (FollowsUntilEnd w now) b (progress_booking now b)
  unfolding progress_booking
  progress-FollowsUntilEnd w now b h =
      leaves (FollowsUntilEnd w now) b (progress_booking now b)
        (λ b' e. ((λ l p c. ground arith), ground arith)) (λ e l p c. ground arith)
        (λ x e. absurd (ground arith))

  finish-FollowsClock :
      (w : World) (now : ℕ) (b : Booking)
      → b.check_in ≤ b.check_out
      → FollowsUntilEnd w now b
      → Leaves (FollowsClock w now) b (finish_booking now b)
  unfolding finish_booking
  finish-FollowsClock w now b h u =
      leaves (FollowsClock w now) b (finish_booking now b)
        (λ b' e. ((λ p c. ground arith), ground arith)) (λ e p c. u (ground arith) p c)
        (λ x e. absurd (ground arith))

  paid_same :
      (w w' : World) (b : Booking)
      → w'.payments ≡ w.payments
      → is_paid_for orm w' b ≡ is_paid_for orm w b
  unfolding is_paid_for payment_of
  paid_same w w' b e = rw e

  abbrev InOrder : Booking → Type 0
  InOrder b = b.check_in ≤ b.check_out

  progress-InOrder : (now : ℕ) (b : Booking) → InOrder b → Saves InOrder (progress_booking now b)
  unfolding progress_booking
  progress-InOrder now b h = saves InOrder (progress_booking now b) (λ b' e. ground arith)

  -- After `handleBookingsInProgress` and `handleFinshedBookings` have run at one time, every
  -- booking that is paid for and not cancelled has the status that the clock gives it, if the
  -- bookings before have distinct identifiers and dates in order.
  pub clock_jobs_settle :
      (now : ℕ) (w : World)
      → UniqueIds w.bookings
      → All (λ b. b.check_in ≤ b.check_out) w.bookings
      → let w' = (handle_bookings_in_progress orm now w).1 in
        All (FollowsClock w now) (handle_finished_bookings orm now w').1.bookings
  unfolding handle_bookings_in_progress handle_finished_bookings
  clock_jobs_settle now w unique ordered =
      sweep_settles orm (FollowsClock w now) (λ b. FollowsUntilEnd w now b × InOrder b)
        (is_paid_for orm) (λ _. finish_booking now) w'
        (sweep-UniqueIds orm (is_paid_for orm) (λ _. progress_booking now) w unique)
        (λ b unpaid p c. absurd (ground (arith, paid_same w w' b same_payments)))
        (λ b _ q. finish-FollowsClock w now b q.1 q.0)
        (All-zip (FollowsUntilEnd w now) InOrder _ (λ b f o. (f, o)) w'.bookings
          (sweep_settles orm (FollowsUntilEnd w now) InOrder (is_paid_for orm)
            (λ _. progress_booking now) w unique (λ b unpaid l p c. absurd (ground arith))
            (λ b _ o. progress-FollowsUntilEnd w now b o) ordered)
          (sweep-All orm InOrder (is_paid_for orm) (λ _. progress_booking now) w
            (λ b _ o. progress-InOrder now b o) ordered))
    where
      w' : World
      w' = (sweep orm (is_paid_for orm) (λ _. progress_booking now) w).1

      same_payments : w'.payments ≡ w.payments
      same_payments = payments-sweep orm (is_paid_for orm) (λ _. progress_booking now) w
