-- ===== src/Tasks/Lifecycle.antt =====
-- The life of a booking as the jobs see it, as an abstract machine that they implement.
use sojourn_backend.Prelude.{
  ℕ, ◌≤◌, ◌<◌, ◌≡◌, ◌≢◌, refl, sym, subst, Bool, true, false, inl, inr, Option, List, [], ◌∷◌, All,
  All-map, Bool-cases, leb, arith,
}
use sojourn_backend.Entities.{Booking, BookingStatus, Payment, is_cancelled, is_pending}
use sojourn_backend.Orm.{Orm}
use sojourn_backend.App.{World}
use sojourn_backend.Tasks.BookingJobs.{
  progress_booking, finish_booking, expire_booking, payment_of, handle_bookings_in_progress,
  handle_finished_bookings, handle_cancel_bookings, handle_cancel_crypto_bookings,
}
use sojourn_backend.Tasks.Sweep.{Saves, saves, sweep-All}
use sojourn_backend.Tasks.Schedule.{
  BookingJob, in_progress, finished_job, cancel, cancel_crypto, run_job, run_jobs,
}

-- The moves of the abstract machine: a booking is paid for, under way, and finished, or it
-- expires before it is paid for.
pub data Moves : BookingStatus → BookingStatus → Type 0 where
  pays : Moves BookingStatus.pending BookingStatus.paid_pending
  starts : Moves BookingStatus.paid_pending BookingStatus.processing
  ends : Moves BookingStatus.processing BookingStatus.finished
  expires : Moves BookingStatus.pending BookingStatus.cancelled

-- Any number of moves.
pub data Follows (s : BookingStatus) : BookingStatus → Type 0 where
  here : Follows s s
  next : {t u : BookingStatus} → Follows s t → Moves t u → Follows s u

to_paid_pending :
    {s : BookingStatus} (t : BookingStatus)
    → Follows s t
    → is_cancelled t ≡ false
    → t ≢ BookingStatus.finished
    → t ≢ BookingStatus.processing
    → Follows s BookingStatus.paid_pending
to_paid_pending BookingStatus.pending f c d e = next f pays
to_paid_pending BookingStatus.paid_pending f c d e = f
to_paid_pending BookingStatus.processing f c d e = absurd (e refl)
to_paid_pending BookingStatus.finished f c d e = absurd (d refl)
to_paid_pending BookingStatus.cancelled f c d e = absurd (cc)

to_processing :
    {s : BookingStatus} (t : BookingStatus)
    → Follows s t
    → is_cancelled t ≡ false
    → t ≢ BookingStatus.finished
    → Follows s BookingStatus.processing
to_processing BookingStatus.pending f c d = next (next f pays) starts
to_processing BookingStatus.paid_pending f c d = next f starts
to_processing BookingStatus.processing f c d = f
to_processing BookingStatus.finished f c d = absurd (d refl)
to_processing BookingStatus.cancelled f c d = absurd (cc)

to_finished :
    {s : BookingStatus} (t : BookingStatus)
    → Follows s t
    → is_cancelled t ≡ false
    → Follows s BookingStatus.finished
to_finished BookingStatus.pending f c = next (next (next f pays) starts) ends
to_finished BookingStatus.paid_pending f c = next (next f starts) ends
to_finished BookingStatus.processing f c = next f ends
to_finished BookingStatus.finished f c = f
to_finished BookingStatus.cancelled f c = absurd (cc)

to_cancelled :
    {s : BookingStatus} (t : BookingStatus)
    → Follows s t
    → is_pending t ≡ true
    → Follows s BookingStatus.cancelled
to_cancelled BookingStatus.pending f c = next f expires
to_cancelled BookingStatus.paid_pending f c = absurd (cc)
to_cancelled BookingStatus.processing f c = absurd (cc)
to_cancelled BookingStatus.finished f c = absurd (cc)
to_cancelled BookingStatus.cancelled f c = absurd (cc)

-- A booking that is under way has begun by the time, and one that is finished has ended.
pub record IsTimely (now : ℕ) (b : Booking) : Type 0 where
  pub in_order : b.check_in ≤ b.check_out
  pub begun : b.status ≡ BookingStatus.processing → b.check_in ≤ now
  pub ended : b.status ≡ BookingStatus.finished → b.check_out ≤ now

abbrev pub job_time : BookingJob → ℕ
job_time (in_progress now) = now
job_time (finished_job now) = now
job_time (cancel now) = now
job_time (cancel_crypto now) = now

-- A schedule in which time does not run backwards.
abbrev pub RunsForward : ℕ → List BookingJob → Type 0
RunsForward now [] = Unit
RunsForward now (j ∷ js) = (now ≤ job_time j) × RunsForward (job_time j) js

module _ (s : BookingStatus) (i : ℕ) where
  abbrev pub OnTrack : ℕ → Booking → Type 0
  OnTrack now b = b.id ≡ i → Follows s b.status × IsTimely now b

  later-OnTrack : (now later : ℕ) → now ≤ later → (b : Booking) → OnTrack now b → OnTrack later b
  later-OnTrack now later h b t e = let (f, timely) = t e in (f, ground arith)

  progress-OnTrack :
      (now : ℕ) (b : Booking) → OnTrack now b → Saves (OnTrack now) (progress_booking now b)
  unfolding progress_booking
  progress-OnTrack now b t = saves (OnTrack now) (progress_booking now b) λ b' e k.
      let same : b.id ≡ i = ground arith in
      let (f, timely) = t same in
      let live : is_cancelled b.status ≡ false = ground arith in
      elim (Bool-cases (leb b.check_in now)) [
        | inl begun ↦
            let open_end : now < b.check_out = ground arith in
            let moved : b'.status ≡ BookingStatus.processing = ground arith in
            let unfinished : b.status ≢ BookingStatus.finished =
              λ q. absurd (ground (arith, timely.ended q)) in
            (
              subst (Follows s) (sym moved) (to_processing b.status f live unfinished),
              record {
                in_order = ground arith;
                begun = λ q. ground arith;
                ended = λ q. absurd (ground arith);
              },
            )
        | inr before ↦
            let moved : b'.status ≡ BookingStatus.paid_pending = ground arith in
            let unfinished : b.status ≢ BookingStatus.finished =
              λ q. absurd (ground (arith, timely.ended q)) in
            let unstarted : b.status ≢ BookingStatus.processing =
              λ q. absurd (ground (arith, timely.begun q)) in
            (
              subst (Follows s) (sym moved) (to_paid_pending b.status f live unfinished unstarted),
              record {
                in_order = ground arith;
                begun = λ q. absurd (ground arith);
                ended = λ q. absurd (ground arith);
              },
            )
      ]

  finish-OnTrack :
      (now : ℕ) (b : Booking) → OnTrack now b → Saves (OnTrack now) (finish_booking now b)
  unfolding finish_booking
  finish-OnTrack now b t = saves (OnTrack now) (finish_booking now b) λ b' e k.
      let same : b.id ≡ i = ground arith in
      let (f, timely) = t same in
      let live : is_cancelled b.status ≡ false = ground arith in
      let moved : b'.status ≡ BookingStatus.finished = ground arith in
      (
        subst (Follows s) (sym moved) (to_finished b.status f live),
        record {
          in_order = ground arith;
          begun = λ q. absurd (ground arith);
          ended = λ q. ground arith;
        },
      )

  expire-OnTrack :
      (now : ℕ) (crypto : Bool) (pay : Booking → Option Payment) (b : Booking)
      → is_pending b.status ≡ true
      → OnTrack now b
      → Saves (OnTrack now) (expire_booking crypto now pay b)
  unfolding expire_booking
  expire-OnTrack now crypto pay b p t =
      saves (OnTrack now) (expire_booking crypto now pay b) λ b' e k.
        let same : b.id ≡ i = ground arith in
        let (f, timely) = t same in
        let moved : b'.status ≡ BookingStatus.cancelled = ground arith in
        (
          subst (Follows s) (sym moved) (to_cancelled b.status f p),
          record {
            in_order = ground arith;
            begun = λ q. absurd (ground arith);
            ended = λ q. absurd (ground arith);
          },
        )

  run_job-OnTrack :
      (orm : Orm) (j : BookingJob) (w : World)
      → All (OnTrack (job_time j)) w.bookings
      → All (OnTrack (job_time j)) (run_job orm j w).bookings
  unfolding run_job handle_bookings_in_progress handle_finished_bookings handle_cancel_bookings
      handle_cancel_crypto_bookings
  run_job-OnTrack orm (in_progress now) w h =
      sweep-All orm (OnTrack now) _ _ w (λ b _. progress-OnTrack now b) h
  run_job-OnTrack orm (finished_job now) w h =
      sweep-All orm (OnTrack now) _ _ w (λ b _. finish-OnTrack now b) h
  run_job-OnTrack orm (cancel now) w h =
      sweep-All orm (OnTrack now) _ _ w (λ b p. expire-OnTrack now false (payment_of orm w) b p) h
  run_job-OnTrack orm (cancel_crypto now) w h =
      sweep-All orm (OnTrack now) _ _ w (λ b p. expire-OnTrack now true (payment_of orm w) b p) h

  run_jobs-OnTrack :
      (orm : Orm) (js : List BookingJob) (now : ℕ) (w : World)
      → RunsForward now js
      → All (OnTrack now) w.bookings
      → All (λ b. b.id ≡ i → Follows s b.status) (run_jobs orm js w).bookings
  unfolding run_jobs
  run_jobs-OnTrack orm [] now w forward h =
      All-map (OnTrack now) (λ b. b.id ≡ i → Follows s b.status) (λ b t e. (t e).0) w.bookings h
  run_jobs-OnTrack orm (j ∷ js) now w (later, forward) h =
      run_jobs-OnTrack orm js (job_time j) (run_job orm j w) forward (
        run_job-OnTrack orm j w (
          All-map (OnTrack now) (OnTrack (job_time j)) (later-OnTrack now (job_time j) later)
            w.bookings h))

  -- Under any schedule of the booking jobs in forward time, a booking whose state fits the clock
  -- moves only along the life of a booking: pending, paid for, under way, finished, or from
  -- pending to cancelled.
  pub jobs_follow_lifecycle :
      (orm : Orm) (js : List BookingJob) (now : ℕ) (w : World)
      → RunsForward now js
      → All (λ b. b.id ≡ i → b.status ≡ s × IsTimely now b) w.bookings
      → All (λ b. b.id ≡ i → Follows s b.status) (run_jobs orm js w).bookings
  jobs_follow_lifecycle orm js now w forward h = run_jobs-OnTrack orm js now w forward (
      All-map (λ b. b.id ≡ i → b.status ≡ s × IsTimely now b) (OnTrack now)
        (λ b t e. (subst (Follows s) (sym (t e).0) here, (t e).1)) w.bookings h)
