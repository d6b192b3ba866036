-- ===== src/Tasks/Sweep/Pairs.antt =====
-- What a sweep does to a relation between the bookings.
use sojourn_backend.Prelude.{
  ◌≡◌, refl, Bool, true, Option, none, some, List, [], ◌∷◌, All, All-map, All-zip,
}
use sojourn_backend.Entities.{Booking}
use sojourn_backend.Orm.{Orm}
use sojourn_backend.Orm.Pairwise.{Pairwise, save-Pairwise, find-Pairwise}
use sojourn_backend.App.{World, Result, ok, err}
use sojourn_backend.Tasks.BookingJobs.{Step, sweep}
use sojourn_backend.Tasks.Sweep.{saved, save_each, world-sweep}

module _ (orm : Orm) (R : Booking → Booking → Type 0) (own : (a : Booking) → R a a)
    (mirror : (a b : Booking) → R a b → R b a) where
  -- What is saved for a booking is related to whatever the booking was related to.
  abbrev pub Weakens : Booking → Result (Option Booking) → Type 0
  Weakens b r = (b' : Booking) → r ≡ ok (some b') → (x : Booking) → R b x → R b' x

  saved-Related :
      (a b : Booking) (r : Result (Option Booking)) (t : List Booking)
      → Weakens b r
      → R a b
      → All (R a) t
      → All (R a) (saved orm r t)
  unfolding saved
  saved-Related a b (err e) t weak ab h = h
  saved-Related a b (ok none) t weak ab h = h
  saved-Related a b (ok (some b')) t weak ab h =
      orm.save_all Booking (R a) (λ x. x.id) b' t (mirror b' a (weak b' refl a (mirror a b ab)))
        (All-map (R a) _ (λ x q _. q) t h)

  saved-Pairwise :
      (b : Booking) (r : Result (Option Booking)) (t : List Booking)
      → Weakens b r
      → All (R b) t
      → Pairwise R t
      → Pairwise R (saved orm r t)
  unfolding saved
  saved-Pairwise b (err e) t weak h pairs = pairs
  saved-Pairwise b (ok none) t weak h pairs = pairs
  saved-Pairwise b (ok (some b')) t weak h pairs =
      save-Pairwise orm (λ x. x.id) R mirror b' t (own b') (All-map (R b) (R b') (weak b' refl) t h)
        pairs

  save_each-Pairwise :
      (step : Step) (rows t : List Booking)
      → All (λ b. Weakens b (step b)) rows
      → Pairwise R rows
      → All (λ b. All (R b) t) rows
      → Pairwise R t
      → Pairwise R (save_each orm step rows t)
  unfolding save_each
  save_each-Pairwise step [] t weak among with_table pairs = pairs
  save_each-Pairwise step (b ∷ bs) t weak among with_table pairs =
      save_each-Pairwise step bs (saved orm (step b) t) weak.1
        (All-map (λ a. All (R a) (b ∷ bs)) (λ a. All (R a) bs) (λ a h. h.1) bs among.1)
        (All-zip (λ a. All (R a) (b ∷ bs)) (λ a. All (R a) t)
          (λ a. All (R a) (saved orm (step b) t))
          (λ a h k. saved-Related a b (step b) t weak.0 h.0 k) bs among.1 with_table.1)
        (saved-Pairwise b (step b) t weak.0 with_table.0 pairs)

  -- A sweep keeps a relation between the rows that its callback weakens, given an invariant of
  -- the rows.
  pub sweep-Pairwise :
      (Q : Booking → Type 0) (clause : World → Booking → Bool) (step : World → Step) (w : World)
      → ((b : Booking) → clause w b ≡ true → Q b → Weakens b (step w b))
      → All Q w.bookings
      → Pairwise R w.bookings
      → Pairwise R (sweep orm clause step w).1.bookings
  sweep-Pairwise Q clause step w weak h pairs = rw (world-sweep orm clause step w) (
      save_each-Pairwise (step w) _ w.bookings
        (All-zip (λ b. clause w b ≡ true) Q (λ b. Weakens b (step w b)) weak _
          (orm.find_sound Booking (clause w) w.bookings)
          (orm.find_keeps Booking Q (clause w) w.bookings h))
        (find-Pairwise orm (λ x. x.id) R mirror (clause w) w.bookings pairs)
        (orm.find_keeps Booking (λ a. All (R a) w.bookings) (clause w) w.bookings pairs) pairs)
