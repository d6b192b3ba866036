-- ===== src/Booking/Shown.antt =====
-- What the views of bookings show of a sale, and whose bookings the list of a guest holds.
use sojourn_backend.Prelude.{
  ℕ, ◌+◌, ◌≡◌, refl, ap, ℤ, pos, ◌-ℤ◌, ◌*ℤ◌, int_laws, true, Option, some, List, [], ◌∷◌, All, Mem,
  All-zip, All-Mem, Option-cases, inl, inr, ◌==◌, arith,
}
use sojourn_backend.Entities.{
  Booking, BookingStatus, Payment, PaymentStatus, Property, User, Wallet, is_cancelled,
}
use sojourn_backend.Orm.{Orm}
use sojourn_backend.App.{World, Result, Result-cases, ok}
use sojourn_backend.Tasks.BookingJobs.{payment_of}
use sojourn_backend.Checkout.Pricing.{amount_due, service_fee, vat_on}
use sojourn_backend.Checkout.Initialize.{Sale, payment_row}
use sojourn_backend.Booking.Views.{
  ShownStatus, BookingRow, SingleBookingView, check_booking_status, less, host_payment, rows_of,
  reads_completed, transform_booking, property_of, guest_of, get_bookings_by_guest_id,
  get_booking_by_id, get_host_booking_by_id, guest_view, host_view,
}

-- What `rows_of` returns are rows that the function gave.
rows_of_lem :
    {A : Type 0} (P : A → Type 0) (f : Booking → Result (Option A)) (bs : List Booking)
    (rs : List A)
    → All (λ b. (r : A) → f b ≡ ok (some r) → P r) bs
    → rows_of f bs ≡ ok rs
    → All P rs
unfolding rows_of
rows_of_lem P f [] rs h e = let same : rs ≡ [] = ground arith in rw same tt
rows_of_lem P f (b ∷ bs) rs h e = elim (Result-cases (f b)) [
  | inr (x, ex) ↦ absurd (ground arith)
  | inl (o, eo) ↦ elim (Option-cases o) [
    | inl gone ↦ rows_of_lem P f bs rs h.1 (ground arith)
    | inr (r, er) ↦ elim (Result-cases (rows_of f bs)) [
      | inr (x, ex) ↦ absurd (ground arith)
      | inl (rest, eb) ↦
          let same : rs ≡ r ∷ rest = ground arith in
          rw same (h.0 r (ground arith), rows_of_lem P f bs rest h.1 eb)
    ]
  ]
]

credits_off_twice :
    (base fee vat caution : ℕ) (a : ℤ)
    → pos (base + fee + caution + vat) -ℤ a -ℤ pos vat -ℤ pos fee -ℤ a -ℤ pos caution
      ≡ pos base -ℤ a -ℤ a
credits_off_twice base fee vat caution a = grind int_laws

host_payment-payment_row :
    (now i : ℕ) (s : Sale) (b : Booking) (x : Wallet)
    → host_payment (payment_row now s b x i) ≡ pos s.base -ℤ s.applied -ℤ s.applied
unfolding host_payment payment_row less amount_due
host_payment-payment_row now i s b x =
    credits_off_twice s.base (service_fee s.base) (vat_on s.base) s.property.caution_fee s.applied

shown_cancelled :
    (s : BookingStatus) → check_booking_status s ≡ ShownStatus.cancelled → is_cancelled s ≡ true
unfolding check_booking_status
shown_cancelled s e = ground arith

module _ (orm : Orm) where
  -- Whoever opens the booking of a sale, whatever the status of its payment has become: the guest
  -- is shown the amount due, and the host 98% of the price of the stay less twice the credits that
  -- were applied, in thousandths.
  pub sale_shown :
      (now i : ℕ) (s : Sale) (x : Wallet) (status : PaymentStatus) (w : World) (b : Booking)
      (property : Property) (guest : User)
      → orm.find_one Booking (λ y. y.id == b.id) w.bookings ≡ some b
      → payment_of orm w b ≡ some (record (payment_row now s b x i) { payment_status = status })
      → property_of orm w b ≡ some property
      → guest_of orm w b ≡ some guest
      → (v : SingleBookingView) × (v' : SingleBookingView) × (get_booking_by_id orm b.id w ≡ ok v)
        × (get_host_booking_by_id orm b.id w ≡ ok v')
        × (v.total ≡ pos 1000 *ℤ amount_due s.base s.property.caution_fee s.applied)
        × (v'.payment ≡ pos 980 *ℤ (pos s.base -ℤ s.applied -ℤ s.applied))
  unfolding get_booking_by_id get_host_booking_by_id guest_view host_view payment_row
  sale_shown now i s x status w b property guest eb ep er eg =
      let p : Payment = record (payment_row now s b x i) { payment_status = status } in
      (
        guest_view orm w b property p,
        host_view b property p,
        rw (eb, ep, er, eg) refl,
        rw (eb, ep, er, eg) refl,
        refl,
        ap (λ a. pos 980 *ℤ a) (host_payment-payment_row now i s b x),
      )

  abbrev IsOwn : World → ℕ → BookingRow → Type 0
  IsOwn w guest r =
      (b : Booking) × (p : Payment) × Mem b w.bookings
      × (b.guest_id ≡ guest)
      × (r.id ≡ b.id)
      × (payment_of orm w b ≡ some p)
      × (r.payment ≡ p.amount)
      × (r.status ≡ ShownStatus.cancelled → p.payment_status ≡ PaymentStatus.completed)

  transform_booking-IsOwn :
      (now guest : ℕ) (w : World) (b : Booking) (r : BookingRow)
      → Mem b w.bookings
      → b.guest_id ≡ guest
      → transform_booking orm true now w b ≡ ok (some r)
      → IsOwn w guest r
  unfolding transform_booking reads_completed
  transform_booking-IsOwn now guest w b r row own e = elim (Option-cases (property_of orm w b)) [
    | inl no_property ↦ absurd (ground arith)
    | inr (property, er) ↦ elim (Option-cases (guest_of orm w b)) [
      | inl no_guest ↦ absurd (ground arith)
      | inr (user, eu) ↦ elim (Option-cases (payment_of orm w b)) [
        | inl unpaid ↦ absurd (ground arith)
        | inr (p, ep) ↦ (
          b,
          p,
          row,
          own,
          ground arith,
          ep,
          ground arith,
          λ c. let gone = shown_cancelled b.status (ground arith) in ground arith,
        )
      ]
    ]
  ]

  -- Each row that the list of a guest shows is of a booking of the table that is of the guest and
  -- has a payment, and none is of a cancelled booking whose payment is not completed.
  pub guest_list_shows-IsOwn :
      (now guest : ℕ) (w : World) (rows : List BookingRow)
      → get_bookings_by_guest_id orm now guest w ≡ ok rows
      → All (IsOwn w guest) rows
  unfolding get_bookings_by_guest_id
  guest_list_shows-IsOwn now guest w rows e =
      rows_of_lem (IsOwn w guest) (transform_booking orm true now w) found rows
        (All-zip (λ b. Mem b w.bookings) (λ b. (b.guest_id == guest) ≡ true) _
          (λ b row own r. transform_booking-IsOwn now guest w b r row (ground arith)) found
          (orm.find_keeps Booking (λ b. Mem b w.bookings) _ w.bookings (All-Mem w.bookings))
          (orm.find_sound Booking (λ b. b.guest_id == guest) w.bookings))
        e
    where
      found : List Booking
      found = orm.find Booking (λ b. b.guest_id == guest) w.bookings
