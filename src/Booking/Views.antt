-- ===== src/Booking/Views.antt =====
-- What guests, hosts and administrators see of bookings: `transformBooking` and
-- `transformHostBooking` of src/utils/bookings-utils.ts, and the queries of
-- src/repositories/bookings.repository.ts that they are applied to. Names, addresses, photos, the
-- text of a date, the reference and the link of a download are left out, and the order of the rows.
use sojourn_backend.Prelude.{
  ℕ, ℤ, pos, ◌+ℤ◌, ◌-ℤ◌, ◌*ℤ◌, leb_ℤ, Bool, true, false, not, ◌&&◌, Option, none, some, List, [],
  ◌∷◌, holds, ◌==◌, if◌then◌else◌,
}
use sojourn_backend.Entities.{
  Booking, BookingStatus, Payment, Property, User, SojournCredit, SojournCreditsType, is_cancelled,
  is_completed, is_crypto,
}
use sojourn_backend.Orm.{Orm}
use sojourn_backend.App.{World, Result, ok, err, Exception}
use sojourn_backend.Time.{number_of_nights}
use sojourn_backend.Tasks.BookingJobs.{payment_of, is_paid_for}

-- `BookingStatus` of the views
pub data ShownStatus : Type 0 where
  pending confirmed in_progress completed cancelled : ShownStatus

-- `BookingRowShape`
pub record BookingRow : Type 0 where
  pub id : ℕ
  pub people : ℤ
  pub status : ShownStatus
  pub payment : ℤ
  pub holding_window : Option ℕ
  pub is_booking_cancellable : Bool

-- `SingleBookingView`. The percentages of a host's view are in thousandths of a naira, and the
-- guest's sums are given so too.
pub record SingleBookingView : Type 0 where
  pub price_of_property : ℕ
  pub number_of_adults : ℤ
  pub number_of_children : ℤ
  pub number_of_infants : ℤ
  pub status : ShownStatus
  pub payment : ℤ
  pub service_fee : ℤ
  pub vat : ℤ
  pub total : ℤ
  -- not in the view of a host
  pub credits : Option ℤ

unfoldable pub check_booking_status : BookingStatus → ShownStatus
check_booking_status BookingStatus.pending = ShownStatus.pending
check_booking_status BookingStatus.paid_pending = ShownStatus.confirmed
check_booking_status BookingStatus.processing = ShownStatus.in_progress
check_booking_status BookingStatus.finished = ShownStatus.completed
check_booking_status BookingStatus.cancelled = ShownStatus.cancelled

-- `numberOfNights(now, bDate) >= 2`
unfoldable pub is_cancellation_window_open : ℕ → Booking → Bool
is_cancellation_window_open now b = leb_ℤ (pos 2) (number_of_nights now b.check_in)

abbrev pub people_of : Booking → ℤ
people_of b = b.number_of_adults +ℤ b.number_of_children +ℤ b.number_of_infants

-- `if (amount) payment -= Number(amount)`
unfoldable pub less : ℤ → Option ℤ → ℤ
less payment none = payment
less payment (some a) = payment -ℤ a

abbrev pub is_zero : ℤ → Bool
is_zero a = leb_ℤ a (pos 0) && leb_ℤ (pos 0) a

-- What a host is shown of a payment.
unfoldable pub host_payment : Payment → ℤ
unfolding less
host_payment p =
    less (less (p.amount -ℤ p.vat -ℤ p.transaction_fee) p.sojourn_credits_amount) p.caution_fee

-- The sum of the credits that were spent on a booking.
unfoldable pub outgoing_credits : List SojournCredit → ℤ
outgoing_credits [] = pos 0
outgoing_credits (c ∷ cs) =
    let rest = outgoing_credits cs in
    elim c.credit_type [
      | SojournCreditsType.outgoing ↦ c.amount +ℤ rest
      | SojournCreditsType.incoming ↦ rest
    ]

-- `map` with a function that may throw, and `filter((r) => r !== undefined)`.
unfoldable pub rows_of :
    {A : Type 0} → (Booking → Result (Option A)) → List Booking → Result (List A)
rows_of f [] = ok []
rows_of f (b ∷ bs) =
    let rest = rows_of f bs in
    elim (f b) [
      | err e ↦ err e
      | ok none ↦ rest
      | ok (some r) ↦ elim rest [ err e ↦ err e | ok rs ↦ ok (r ∷ rs) ]
    ]

-- Reading a property of `null` throws.
abbrev pub there : {A B : Type 0} → Option A → (A → Result B) → Result B
there none f = err Exception.type_error
there (some a) f = f a

-- The fee and the VAT are 2% and 7.5% of the share, which is shown less the fee.
unfoldable pub host_view : Booking → Property → Payment → SingleBookingView
unfolding check_booking_status host_payment
host_view b property p = record {
  price_of_property = property.price;
  number_of_adults = b.number_of_adults;
  number_of_children = b.number_of_children;
  number_of_infants = b.number_of_infants;
  status = check_booking_status b.status;
  payment = pos 980 *ℤ host_payment p;
  service_fee = pos 20 *ℤ host_payment p;
  vat = pos 75 *ℤ host_payment p;
  total =
      if is_zero p.amount
      then pos 0
      else pos 1000 *ℤ (host_payment p *ℤ number_of_nights b.check_in b.check_out);
  credits = none;
}

module _ (orm : Orm) where
  unfoldable pub property_of : World → Booking → Option Property
  property_of w b = orm.find_one Property (λ x. x.id == b.property_id) w.properties

  unfoldable pub guest_of : World → Booking → Option User
  guest_of w b = orm.find_one User (λ u. u.id == b.guest_id) w.users

  -- `booking?.payment?.paymentStatus !== COMPLETED`, where the status is undefined in a query that
  -- does not select it.
  unfoldable pub reads_completed : Bool → Option Payment → Bool
  reads_completed selected none = false
  reads_completed selected (some p) = selected && is_completed p.payment_status

  -- The window is shown while a payment in crypto currency, whose method is selected, is held.
  unfoldable pub shown_window : Bool → Booking → Payment → Option ℕ
  shown_window selected b p =
      if selected && (is_crypto p.payment_method && not (is_cancelled b.status))
      then b.holding_window
      else none

  -- A row of `transformBooking`; `selected` says whether the query selects the status and the
  -- method of the payment.
  unfoldable pub transform_booking : Bool → ℕ → World → Booking → Result (Option BookingRow)
  unfolding payment_of property_of guest_of reads_completed shown_window check_booking_status
      is_cancellation_window_open
  transform_booking selected now w b =
      if not (reads_completed selected (payment_of orm w b)) && is_cancelled b.status
      then ok none
      else there (property_of w b) λ property. there (guest_of w b) λ guest.
        there (payment_of orm w b) λ p. ok (
          some (record {
            id = b.id;
            people = people_of b;
            status = check_booking_status b.status;
            payment = p.amount;
            holding_window = shown_window selected b p;
            is_booking_cancellable = is_cancellation_window_open now b;
          }))

  unfoldable pub get_all_bookings : ℕ → World → Result (List BookingRow)
  unfolding rows_of transform_booking
  get_all_bookings now w =
      rows_of (transform_booking false now w) (orm.find Booking (λ b. true) w.bookings)

  unfoldable pub get_bookings_by_guest_id : ℕ → ℕ → World → Result (List BookingRow)
  unfolding rows_of transform_booking
  get_bookings_by_guest_id now guest w =
      rows_of (transform_booking true now w)
        (orm.find Booking (λ b. b.guest_id == guest) w.bookings)

  -- A row of `transformHostBooking`, of a query that does not select the method of the payment.
  unfoldable pub transform_host_booking : ℕ → World → Booking → Result (Option BookingRow)
  unfolding payment_of property_of guest_of check_booking_status is_cancellation_window_open
      host_payment
  transform_host_booking now w b = there (payment_of orm w b) λ p.
      there (property_of w b) λ property. there (guest_of w b) λ guest. ok (
        some (record {
          id = b.id;
          people = people_of b;
          status = check_booking_status b.status;
          payment = host_payment p;
          holding_window = none;
          is_booking_cancellable = is_cancellation_window_open now b;
        }))

  unfoldable pub is_of_host : World → ℕ → Booking → Bool
  unfolding property_of
  is_of_host w host b = elim (property_of w b) [ none ↦ false | some x ↦ x.host_id == host ]

  unfoldable pub get_bookings_by_host_id : ℕ → ℕ → World → Result (List BookingRow)
  unfolding rows_of transform_host_booking is_of_host is_paid_for
  get_bookings_by_host_id now host w =
      rows_of (transform_host_booking now w)
        (orm.find Booking (λ b. is_of_host w host b && is_paid_for orm w b) w.bookings)

  abbrev credits_of : World → Booking → List SojournCredit
  credits_of w b = orm.find SojournCredit (λ c. holds c.booking_id b.id) w.credits

  unfoldable pub guest_view : World → Booking → Property → Payment → SingleBookingView
  unfolding check_booking_status outgoing_credits
  guest_view w b property p = record {
    price_of_property = property.price;
    number_of_adults = b.number_of_adults;
    number_of_children = b.number_of_children;
    number_of_infants = b.number_of_infants;
    status = check_booking_status b.status;
    payment = pos 1000 *ℤ p.amount;
    service_fee = pos 1000 *ℤ p.transaction_fee;
    vat = pos 1000 *ℤ p.vat;
    total = pos 1000 *ℤ p.amount;
    credits = some (pos 1000 *ℤ outgoing_credits (credits_of w b));
  }

  unfoldable pub get_booking_by_id : ℕ → World → Result SingleBookingView
  unfolding payment_of property_of guest_of guest_view
  get_booking_by_id i w = there (orm.find_one Booking (λ b. b.id == i) w.bookings) λ b.
      there (property_of w b) λ property.
        there (guest_of w b) λ guest. there (payment_of orm w b) λ p. ok (guest_view w b property p)

  unfoldable pub get_host_booking_by_id : ℕ → World → Result SingleBookingView
  unfolding payment_of property_of guest_of host_view
  get_host_booking_by_id i w = there (orm.find_one Booking (λ b. b.id == i) w.bookings) λ b.
      there (payment_of orm w b) λ p.
        there (property_of w b)
          λ property. there (guest_of w b) λ guest. ok (host_view b property p)
