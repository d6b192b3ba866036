-- ===== src/Tasks/Schedule.antt =====
-- Any schedule of the four booking jobs, in any order and at any times.
use sojourn_backend.Prelude.{ℕ, ◌≡◌, Bool, true, false, Option, List, [], ◌∷◌, All, arith}
use sojourn_backend.Entities.{Booking, Payment, is_cancelled}
use sojourn_backend.Orm.{Orm}
use sojourn_backend.App.{World}
use sojourn_backend.Tasks.BookingJobs.{
  progress_booking, finish_booking, expire_booking, payment_of, handle_bookings_in_progress,
  handle_finished_bookings, handle_cancel_bookings, handle_cancel_crypto_bookings,
}
use sojourn_backend.Tasks.Sweep.{Saves, saves, sweep-All, payments-sweep}

-- A run of one job, at a time.
pub data BookingJob : Type 0 where
  in_progress finished_job cancel cancel_crypto : ℕ → BookingJob

module _ (orm : Orm) where
  unfoldable pub run_job : BookingJob → World → World
  run_job (in_progress now) w = (handle_bookings_in_progress orm now w).1
  run_job (finished_job now) w = (handle_finished_bookings orm now w).1
  run_job (cancel now) w = (handle_cancel_bookings orm now w).1
  run_job (cancel_crypto now) w = (handle_cancel_crypto_bookings orm now w).1

  unfoldable pub run_jobs : List BookingJob → World → World
  unfolding run_job
  run_jobs [] w = w
  run_jobs (j ∷ js) w = run_jobs js (run_job j w)

  pub payments-run_job : (j : BookingJob) (w : World) → (run_job j w).payments ≡ w.payments
  unfolding run_job handle_bookings_in_progress handle_finished_bookings handle_cancel_bookings
      handle_cancel_crypto_bookings
  payments-run_job (in_progress now) w = payments-sweep orm _ _ w
  payments-run_job (finished_job now) w = payments-sweep orm _ _ w
  payments-run_job (cancel now) w = payments-sweep orm _ _ w
  payments-run_job (cancel_crypto now) w = payments-sweep orm _ _ w

  abbrev IsCancelledRow : ℕ → Booking → Type 0
  IsCancelledRow i b = b.id ≡ i → is_cancelled b.status ≡ true

  progress-IsCancelledRow :
      (i now : ℕ) (b : Booking)
      → IsCancelledRow i b
      → Saves (IsCancelledRow i) (progress_booking now b)
  unfolding progress_booking
  progress-IsCancelledRow i now b h =
      saves (IsCancelledRow i) (progress_booking now b) (λ b' e k. ground arith)

  finish-IsCancelledRow :
      (i now : ℕ) (b : Booking)
      → IsCancelledRow i b
      → Saves (IsCancelledRow i) (finish_booking now b)
  unfolding finish_booking
  finish-IsCancelledRow i now b h =
      saves (IsCancelledRow i) (finish_booking now b) (λ b' e k. ground arith)

  expire-IsCancelledRow :
      (i now : ℕ) (crypto : Bool) (pay : Booking → Option Payment) (b : Booking)
      → Saves (IsCancelledRow i) (expire_booking crypto now pay b)
  unfolding expire_booking
  expire-IsCancelledRow i now crypto pay b =
      saves (IsCancelledRow i) (expire_booking crypto now pay b) (λ b' e k. ground arith)

  run_job-IsCancelledRow :
      (i : ℕ) (j : BookingJob) (w : World)
      → All (IsCancelledRow i) w.bookings
      → All (IsCancelledRow i) (run_job j w).bookings
  unfolding run_job handle_bookings_in_progress handle_finished_bookings handle_cancel_bookings
      handle_cancel_crypto_bookings
  run_job-IsCancelledRow i (in_progress now) w h =
      sweep-All orm (IsCancelledRow i) _ _ w (λ b _. progress-IsCancelledRow i now b) h
  run_job-IsCancelledRow i (finished_job now) w h =
      sweep-All orm (IsCancelledRow i) _ _ w (λ b _. finish-IsCancelledRow i now b) h
  run_job-IsCancelledRow i (cancel now) w h =
      sweep-All orm (IsCancelledRow i) _ _ w
        (λ b _ _. expire-IsCancelledRow i now false (payment_of orm w) b) h
  run_job-IsCancelledRow i (cancel_crypto now) w h =
      sweep-All orm (IsCancelledRow i) _ _ w
        (λ b _ _. expire-IsCancelledRow i now true (payment_of orm w) b) h

  -- If every booking with an identifier is cancelled, every one is after any schedule of the four
  -- booking jobs.
  pub cancelled_stays_cancelled :
      (i : ℕ) (js : List BookingJob) (w : World)
      → All (λ b. b.id ≡ i → is_cancelled b.status ≡ true) w.bookings
      → All (λ b. b.id ≡ i → is_cancelled b.status ≡ true) (run_jobs js w).bookings
  unfolding run_jobs
  cancelled_stays_cancelled i [] w h = h
  cancelled_stays_cancelled i (j ∷ js) w h =
      cancelled_stays_cancelled i js (run_job j w) (run_job-IsCancelledRow i j w h)
