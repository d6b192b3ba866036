-- ===== src/Tests/Jobs.antt =====
-- The booking jobs on the sample rows.
use sojourn_backend.Prelude.{◌≡◌, refl, true, false, [], ◌∷◌, All}
use sojourn_backend.Entities.{is_cancelled}
use sojourn_backend.Tasks.BookingJobs.{is_paid_for}
use sojourn_backend.Tasks.Schedule.{run_jobs, in_progress, cancel, cancel_crypto}
use sojourn_backend.Tasks.Expiry.{paid_never_cancelled}
use sojourn_backend.Tests.Database.{list_orm}
use sojourn_backend.Tests.Samples.{on, sample}

paid_never_cancelled_example :
    All
      (λ b. is_paid_for list_orm sample b ≡ true → is_cancelled b.status ≡ false)
      (run_jobs list_orm
        (cancel (on 1) ∷ in_progress (on 3) ∷ cancel_crypto (on 3) ∷ [])
        sample).bookings
paid_never_cancelled_example =
    paid_never_cancelled list_orm (cancel (on 1) ∷ in_progress (on 3) ∷ cancel_crypto (on 3) ∷ [])
      sample (λ _. refl, (λ h. refl, tt))
