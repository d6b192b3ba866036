-- ===== src/Time/Nights.antt =====
-- What `numberOfNights` computes.
use sojourn_backend.Prelude.{ℕ, ◌+◌, ◌*◌, ◌≤◌, ◌<◌, ◌↔◌, pos, pos_part, neg_part, ◌≤ℤ◌, arith}
use sojourn_backend.Time.{day, number_of_nights}

-- `numberOfNights` is the least integer that, in days, reaches the distance between the dates.
pub number_of_nights_ceiling :
    (from to : ℕ)
    → let n = number_of_nights from to in
      (to + neg_part n * day ≤ from + pos_part n * day)
      × (from + pos_part n * day < to + neg_part n * day + day)
unfolding number_of_nights
number_of_nights_ceiling from to = ground arith

-- `numberOfNights` is at least one exactly when the second date is later than the first.
pub one_night_iff_later : (from to : ℕ) → (pos 1 ≤ℤ number_of_nights from to) ↔ (from < to)
unfolding number_of_nights
one_night_iff_later from to = ground arith
