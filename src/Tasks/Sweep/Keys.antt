-- ===== src/Tasks/Sweep/Keys.antt =====
-- A sweep loses no booking.
use sojourn_backend.Prelude.{ℕ, Option, none, some, List, [], ◌∷◌, inr, Bool}
use sojourn_backend.Entities.{Booking}
use sojourn_backend.Orm.{Orm, HasKey}
use sojourn_backend.App.{World, Result, ok, err}
use sojourn_backend.Tasks.BookingJobs.{Step, sweep}
use sojourn_backend.Tasks.Sweep.{saved, save_each, world-sweep}

module _ (orm : Orm) (k : ℕ) where
  saved-HasKey :
      (r : Result (Option Booking)) (t : List Booking)
      → HasKey (λ b. b.id) k t
      → HasKey (λ b. b.id) k (saved orm r t)
  unfolding saved
  saved-HasKey (err e) t h = h
  saved-HasKey (ok none) t h = h
  saved-HasKey (ok (some b)) t h = orm.save_has Booking (λ x. x.id) b t k (inr h)

  save_each-HasKey :
      (step : Step) (rows t : List Booking)
      → HasKey (λ b. b.id) k t
      → HasKey (λ b. b.id) k (save_each orm step rows t)
  unfolding save_each
  save_each-HasKey step [] t h = h
  save_each-HasKey step (b ∷ bs) t h =
      save_each-HasKey step bs (saved orm (step b) t) (saved-HasKey (step b) t h)

  pub sweep-HasKey :
      (clause : World → Booking → Bool) (step : World → Step) (w : World)
      → HasKey (λ b. b.id) k w.bookings
      → HasKey (λ b. b.id) k (sweep orm clause step w).1.bookings
  sweep-HasKey clause step w h =
      rw (world-sweep orm clause step w) (save_each-HasKey (step w) _ w.bookings h)
