-- ===== src/Booking/Cancellation.antt =====
-- `cancelBooking` of src/bookings/bookings.service.ts and of
-- src/repositories/bookings.repository.ts.
use sojourn_backend.Prelude.{
  ℕ, ◌≡◌, ◌≢◌, refl, ap, ◌⊎◌, true, false, not, ◌&&◌, Option, List, Mem, All, All-map, All-Mem,
  ◌==◌, arith, Option-cases, inl, inr, ◌+ℤ◌,
}
use sojourn_backend.Entities.{Booking, BookingStatus, Property, User, Host, is_cancelled}
use sojourn_backend.Orm.{Orm}
use sojourn_backend.App.{
  World, Event, Handler, ok, err, Exception, ◌>>=◌, ◌>>◌, gets, deref, modify, emit, set_bookings,
  throw_if, Result-cases,
}
use sojourn_backend.App.Transaction.{intercept, rolled_back}
use sojourn_backend.Time.{number_of_nights}

module _ (orm : Orm) where
  -- `getBookingForCancellationById`, with `status: Not(CANCELLED)`
  unfoldable pub get_booking_for_cancellation_by_id : ℕ → World → Option Booking
  get_booking_for_cancellation_by_id i w =
      orm.find_one Booking (λ b. (b.id == i) && not (is_cancelled b.status)) w.bookings

  -- `BookingsRepository.cancelBooking`: the update, and the row read back
  unfoldable pub cancel_booking_row : ℕ → Handler (Option Booking)
  cancel_booking_row i = do
    modify λ w.
        set_bookings
          (orm.update Booking (λ b. b.id == i) (λ b. record b { status = BookingStatus.cancelled })
            w.bookings)
          w
    gets λ w. orm.find_one Booking (λ b. b.id == i) w.bookings

  -- `BookingsService.cancelBooking`. The properties of the booking that was found are read
  -- before the code tests whether one was found; the two mails carry the booking's id, the
  -- number of guests and that of nights.
  unfoldable pub cancel_booking : ℕ → Handler (Option Booking)
  unfolding get_booking_for_cancellation_by_id cancel_booking_row
  cancel_booking i = do
    existing ← deref (← gets (get_booking_for_cancellation_by_id i))
    property ←
        deref (← gets λ w. orm.find_one Property (λ p. p.id == existing.property_id) w.properties)
    guest ← deref (← gets λ w. orm.find_one User (λ u. u.id == existing.guest_id) w.users)
    throw_if (not guest.has_profile) Exception.type_error
    booking ← cancel_booking_row i
    host ← deref (← gets λ w. orm.find_one Host (λ h. h.id == property.host_id) w.hosts)
    let nights = number_of_nights existing.check_in existing.check_out
    let guests =
        existing.number_of_adults +ℤ existing.number_of_children +ℤ existing.number_of_infants
    emit (Event.guest_booking_rejected existing.id guests nights)
    emit (Event.host_booking_rejected existing.id guests nights)
    gets λ _. booking

  -- The cancellation of an identifier all of whose bookings are cancelled fails with a TypeError
  -- and changes nothing.
  pub cancel_again_fails :
      (i : ℕ) (w : World)
      → All (λ b. b.id ≡ i → b.status ≡ BookingStatus.cancelled) w.bookings
      → cancel_booking i w ≡ (err Exception.type_error, w)
  unfolding cancel_booking
  cancel_again_fails i w h = elim (Option-cases (get_booking_for_cancellation_by_id i w)) [
    | inl e ↦ rw (e, cancel_booking)
    | inr (b, e) ↦
        let same : b.id ≡ i → b.status ≡ BookingStatus.cancelled =
          orm.find_one_keeps Booking _ _ w.bookings b h e in
        let hit : ((b.id == i) && not (is_cancelled b.status)) ≡ true =
          orm.find_one_sound Booking _ w.bookings b e in
        absurd (ground arith)
  ]

  abbrev pub cancelled_table : ℕ → World → List Booking
  cancelled_table i w =
      orm.update Booking (λ b. b.id == i) (λ b. record b { status = BookingStatus.cancelled })
        w.bookings

  pub bookings-cancel_booking :
      (i : ℕ) (w w' : World) {r : Option Booking}
      → cancel_booking i w ≡ (ok r, w')
      → w'.bookings ≡ cancelled_table i w
  unfolding cancel_booking
  bookings-cancel_booking i w w' e = ground arith

  -- What a cancellation makes of the table: no row is lost and none is added, those with the
  -- identifier are cancelled, and the others are what they were.
  abbrev pub CancelsOnly : ℕ → List Booking → List Booking → Type 0
  CancelsOnly i before after =
      All
        (λ b.
          (b.id ≡ i → Mem (record b { status = BookingStatus.cancelled }) after)
          × (b.id ≢ i → Mem b after))
        before
      × All (λ b. (b.id ≡ i → b.status ≡ BookingStatus.cancelled) × (b.id ≢ i → Mem b before)) after

  cancelled_table-CancelsOnly : (i : ℕ) (w : World) → CancelsOnly i w.bookings (cancelled_table i w)
  cancelled_table-CancelsOnly i w = (
    All-map
        (λ b.
          ((b.id == i) ≡ true
            → Mem (record b { status = BookingStatus.cancelled }) (cancelled_table i w))
          × ((b.id == i) ≡ false → Mem b (cancelled_table i w)))
        _ (λ b h. ((λ same. h.0 (ground arith)), (λ other. h.1 (ground arith)))) w.bookings
        (orm.update_mem Booking (λ b. b.id == i) _ w.bookings),
    orm.update_all Booking _ _ _ w.bookings (
        All-map (λ b. Mem b w.bookings) _
          (λ b row. (
            λ hit. (λ _. refl, λ ne. absurd (ground arith)),
            λ miss. (λ eq. absurd (ground arith), λ _. row),
          ))
          w.bookings (All-Mem w.bookings)),
  )

  -- Inside the transaction, a cancellation either fails and rolls every table back, or succeeds,
  -- and then no row of the table of bookings is lost and none is added, those with the identifier
  -- are cancelled, and all others are as they were.
  pub cancel_atomic :
      (i : ℕ) (w : World)
      → let r = intercept (cancel_booking i) w in
        ((e : Exception) × (r.0 ≡ err e) × (r.1 ≡ rolled_back w r.1))
        ⊎ ((b : Option Booking) × (r.0 ≡ ok b) × CancelsOnly i w.bookings r.1.bookings)
  unfolding intercept
  cancel_atomic i w = elim (Result-cases (cancel_booking i w).0) [
    | inr (e, bad) ↦ inl (e, ground arith, ground arith)
    | inl (b, done) ↦
        let w' = (cancel_booking i w).1 in
        let same : intercept (cancel_booking i) w ≡ (ok b, w') = ground arith in
        let table : w'.bookings ≡ cancelled_table i w =
          bookings-cancel_booking i w w' (ap (λ x. (x, w')) done) in
        rw same (inr (b, refl, rw table (cancelled_table-CancelsOnly i w)))
  ]
