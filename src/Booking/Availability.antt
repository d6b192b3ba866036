-- ===== src/Booking/Availability.antt =====
-- Whether a listing is free: `checkAvailabilityOfListing` of
-- src/repositories/bookings.repository.ts.
use sojourn_backend.Prelude.{
  ℕ, ◌≤◌, ◌≡◌, ◌↔◌, inl, inr, Bool, true, false, not, ◌&&◌, ◌||◌, ap, All, All-map, Bool-cases,
  Option-cases, is_set, leb, ◌==◌, if◌then◌else◌, arith,
}
use sojourn_backend.Entities.{Booking, is_cancelled, is_finished}
use sojourn_backend.Orm.{Orm}
use sojourn_backend.App.{World, Handler, ok, gets}

-- `CheckListingAvailabilityType`, without the numbers of guests, which the query does not read
pub record ListingDates : Type 0 where
  pub property_id : ℕ
  pub check_in_date : ℕ
  pub check_out_date : ℕ

-- A booking of the property that is neither cancelled nor finished: the first `where`.
unfoldable pub is_active_booking : ℕ → Booking → Bool
is_active_booking property b =
    (b.property_id == property) && (not (is_cancelled b.status) && not (is_finished b.status))

-- The condition that the query selects by. The second condition is a text `x OR y`; `brackets`
-- says whether the query builder puts it in brackets when it joins it to the first by AND.
unfoldable pub conflicts : Bool → ListingDates → Booking → Bool
conflicts brackets v b =
    let active = is_active_booking v.property_id b in
    let starts_within = leb b.check_in v.check_in_date && leb v.check_in_date b.check_out in
    let starts_before = leb v.check_in_date b.check_in && leb b.check_in v.check_out_date in
    if brackets
    then active && (starts_within || starts_before)
    else (active && starts_within) || starts_before

unfoldable pub check_availability_of_listing : Orm → Bool → ListingDates → Handler Bool
check_availability_of_listing orm brackets v =
    gets λ w. not (is_set (orm.find_one Booking (conflicts brackets v) w.bookings))

-- The specification: the two stays have an instant in common, the ends counted.
abbrev pub SharesInstant : ListingDates → Booking → Type 0
SharesInstant v b =
    (t : ℕ) × (v.check_in_date ≤ t) × (t ≤ v.check_out_date) × (b.check_in ≤ t) × (t ≤ b.check_out)

-- The requested dates hold the beginning of a booking, whatever its listing and status.
abbrev pub BeginsWithin : ListingDates → Booking → Type 0
BeginsWithin v b = (v.check_in_date ≤ b.check_in) × (b.check_in ≤ v.check_out_date)

module _ (orm : Orm) where
  -- The listing is reported as free exactly when the query finds no row that conflicts.
  available_iff_none :
      (brackets : Bool) (v : ListingDates) (w : World)
      → (not (is_set (orm.find_one Booking (conflicts brackets v) w.bookings)) ≡ true)
        ↔ All (λ b. conflicts brackets v b ≡ false) w.bookings
  available_iff_none brackets v w =
      elim (Option-cases (orm.find_one Booking (conflicts brackets v) w.bookings)) [
        | inl e ↦ (λ _. orm.find_one_none Booking _ w.bookings e, λ _. rw e)
        | inr (b, e) ↦ (
          λ h. absurd (ground arith),
          λ all.
              let free : conflicts brackets v b ≡ false =
                orm.find_one_keeps Booking (λ x. conflicts brackets v x ≡ false) _ w.bookings b all
                  e in
              let hit : conflicts brackets v b ≡ true =
                orm.find_one_sound Booking _ w.bookings b e in
              absurd (ground arith),
        )
      ]

  -- Brackets or not, a listing that is reported as free is free.
  pub available-disjoint :
      (brackets : Bool) (v : ListingDates) (w : World)
      → (check_availability_of_listing orm brackets v w).0 ≡ ok true
      → All (λ b. is_active_booking v.property_id b ≡ true → ¬ SharesInstant v b) w.bookings
  unfolding check_availability_of_listing conflicts
  available-disjoint brackets v w h =
      All-map (λ b. conflicts brackets v b ≡ false) _
        (λ b e active s. let (t, h1, h2, h3, h4) = s in absurd (ground arith)) w.bookings
        ((available_iff_none brackets v w).0 (ground arith))

  -- For dates in order, a listing is reported as free exactly when none of its bookings that are
  -- neither cancelled nor finished has an instant in common with the requested stay and no booking
  -- at all, of any listing and of any status, begins within it.
  pub available_iff :
      (v : ListingDates) (w : World)
      → v.check_in_date ≤ v.check_out_date
      → ((check_availability_of_listing orm false v w).0 ≡ ok true)
        ↔ All
            (λ b.
              (is_active_booking v.property_id b ≡ true → ¬ SharesInstant v b) × ¬ BeginsWithin v b)
            w.bookings
  unfolding check_availability_of_listing conflicts
  available_iff v w hv = (
    λ h.
        All-map (λ b. conflicts false v b ≡ false) _
          (λ b e. (
            λ active s. let (t, h1, h2, h3, h4) = s in absurd (ground arith),
            λ s. absurd (ground arith),
          ))
          w.bookings ((available_iff_none false v w).0 (ground arith)),
    λ all. ap ok (
        (available_iff_none false v w).1 (
          All-map _ (λ b. conflicts false v b ≡ false)
            (λ b h. elim (Bool-cases (conflicts false v b)) [
              | inr e ↦ e
              | inl e ↦
                  elim (Bool-cases
                    (leb v.check_in_date b.check_in && leb b.check_in v.check_out_date)) [
                      | inl within ↦ absurd (h.1 (ground arith, ground arith))
                      | inr apart ↦ absurd (
                          h.0 (ground arith)
                            (v.check_in_date, ground arith, hv, ground arith, ground arith))
                    ]
            ])
            w.bookings all)),
  )
