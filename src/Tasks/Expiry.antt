-- ===== src/Tasks/Expiry.antt =====
-- The cancelling of bookings that were not paid for in time: `handleCancelBookings` and
-- `handleCancelCryptoBookings`.
use sojourn_backend.Prelude.{
  ℕ, ◌≤◌, ◌≡◌, sym, ◌∙◌, Bool, true, false, some, List, [], ◌∷◌, All, All-map, is_set, arith,
}
use sojourn_backend.Entities.{Booking, Payment, is_cancelled, is_pending, is_completed}
use sojourn_backend.Orm.{Orm}
use sojourn_backend.App.{World, ok}
use sojourn_backend.Tasks.BookingJobs.{
  progress_booking, finish_booking, expire_booking, is_paid_for, payment_of,
  handle_bookings_in_progress, handle_finished_bookings, handle_cancel_bookings,
  handle_cancel_crypto_bookings,
}
use sojourn_backend.Tasks.Sweep.{Saves, saves, sweep-All}
use sojourn_backend.Tasks.Schedule.{
  BookingJob, in_progress, finished_job, cancel, cancel_crypto, run_job, run_jobs, payments-run_job,
}

module _ (orm : Orm) where
  paid_by_id :
      (w : World) (b b' : Booking) → b'.id ≡ b.id → is_paid_for orm w b' ≡ is_paid_for orm w b
  unfolding is_paid_for payment_of
  paid_by_id w b b' e = rw e

  paid_by_payments :
      (w w' : World) (b : Booking)
      → w'.payments ≡ w.payments
      → is_paid_for orm w' b ≡ is_paid_for orm w b
  unfolding is_paid_for payment_of
  paid_by_payments w w' b e = rw e

  -- A booking whose payment is completed is not cancelled.
  abbrev pub PaidIsKept : World → Booking → Type 0
  PaidIsKept w b = is_paid_for orm w b ≡ true → is_cancelled b.status ≡ false

  progress-PaidIsKept :
      (w : World) (now : ℕ) (b : Booking)
      → PaidIsKept w b
      → Saves (PaidIsKept w) (progress_booking now b)
  unfolding progress_booking
  progress-PaidIsKept w now b h =
      saves (PaidIsKept w) (progress_booking now b) (λ b' e k. ground arith)

  finish-PaidIsKept :
      (w : World) (now : ℕ) (b : Booking)
      → PaidIsKept w b
      → Saves (PaidIsKept w) (finish_booking now b)
  unfolding finish_booking
  finish-PaidIsKept w now b h = saves (PaidIsKept w) (finish_booking now b) (λ b' e k. ground arith)

  expired_unpaid :
      (w : World) (now : ℕ) (crypto : Bool) (b b' : Booking)
      → expire_booking crypto now (payment_of orm w) b ≡ ok (some b')
      → (b'.id ≡ b.id) × (is_paid_for orm w b ≡ false)
  unfolding expire_booking is_paid_for
  expired_unpaid w now crypto b b' e = ground arith

  expire-PaidIsKept :
      (w : World) (now : ℕ) (crypto : Bool) (b : Booking)
      → Saves (PaidIsKept w) (expire_booking crypto now (payment_of orm w) b)
  expire-PaidIsKept w now crypto b = saves (PaidIsKept w) _ λ b' e k.
      let (same, unpaid) = expired_unpaid w now crypto b b' e in
      absurd (ground (arith, paid_by_id w b b' same))

  run_job-PaidIsKept :
      (j : BookingJob) (w : World)
      → All (PaidIsKept w) w.bookings
      → All (PaidIsKept w) (run_job orm j w).bookings
  unfolding run_job handle_bookings_in_progress handle_finished_bookings handle_cancel_bookings
      handle_cancel_crypto_bookings
  run_job-PaidIsKept (in_progress now) w h =
      sweep-All orm (PaidIsKept w) _ _ w (λ b _. progress-PaidIsKept w now b) h
  run_job-PaidIsKept (finished_job now) w h =
      sweep-All orm (PaidIsKept w) _ _ w (λ b _. finish-PaidIsKept w now b) h
  run_job-PaidIsKept (cancel now) w h =
      sweep-All orm (PaidIsKept w) _ _ w (λ b _ _. expire-PaidIsKept w now false b) h
  run_job-PaidIsKept (cancel_crypto now) w h =
      sweep-All orm (PaidIsKept w) _ _ w (λ b _ _. expire-PaidIsKept w now true b) h

  -- If no booking whose payment is completed is cancelled, none is after any schedule of the four
  -- booking jobs.
  pub paid_never_cancelled :
      (js : List BookingJob) (w : World)
      → All (λ b. is_paid_for orm w b ≡ true → is_cancelled b.status ≡ false) w.bookings
      → All
          (λ b. is_paid_for orm w b ≡ true → is_cancelled b.status ≡ false)
          (run_jobs orm js w).bookings
  unfolding run_jobs
  paid_never_cancelled [] w h = h
  paid_never_cancelled (j ∷ js) w h =
      let w' = run_job orm j w in
      let same = payments-run_job orm j w in
      All-map (PaidIsKept w') (PaidIsKept w) (λ b f p. f (paid_by_payments w w' b same ∙ p)) _
        (paid_never_cancelled js w' (
          All-map (PaidIsKept w) (PaidIsKept w')
            (λ b f p. f (sym (paid_by_payments w w' b same) ∙ p)) _ (run_job-PaidIsKept j w h)))

  -- A pending booking whose holding window is over, without a completed payment.
  abbrev pub IsOverdue : World → ℕ → Booking → Type 0
  IsOverdue w now b =
      (is_pending b.status ≡ true)
      × (t : ℕ) × (b.holding_window ≡ some t)
      × (t ≤ now)
      × (p : Payment) × (payment_of orm w b ≡ some p)
      × (is_completed p.payment_status ≡ false)

  abbrev NotOverdueOn : Bool → World → ℕ → Booking → Type 0
  NotOverdueOn crypto w now b = is_set b.crypto_payment_address ≡ crypto → ¬ IsOverdue w now b
