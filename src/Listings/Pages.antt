-- ===== src/Listings/Pages.antt =====
-- What hosts, administrators and guests see of listings: `transfromProperties` of
-- src/utils/property-utils.ts and the queries of src/repositories/properties.repository.ts.
-- The columns that are only displayed are left out, and the order of the rows.
use sojourn_backend.Prelude.{
  ℕ, ◌+◌, ℤ, pos, ◌+ℤ◌, Bool, true, not, ◌&&◌, ◌||◌, Option, is_set, holds, map, List, [], ◌∷◌,
  take, ◌==◌, if◌then◌else◌,
}
use sojourn_backend.Entities.{
  Booking, BookingStatus, Payment, Property, PropertyStatus, PropertyInspection,
  PropertyInspectionStatus, is_active, is_cancelled, is_pending, is_finished, is_processing,
  is_paid_pending,
}
use sojourn_backend.Orm.{Orm}
use sojourn_backend.App.{
  World, Handler, Result, ok, ◌>>=◌, ◌>>◌, gets, deref, modify, there_ok, all_rows,
}
use sojourn_backend.Tasks.BookingJobs.{payment_of}
use sojourn_backend.Booking.Views.{host_payment, there}

-- A row of `transfromProperties`
pub record ListingRow : Type 0 where
  pub id : ℕ
  pub status : PropertyInspectionStatus
  pub active_status : PropertyStatus
  pub bookings : ℕ
  pub revenue : ℤ
  pub active_from : Option ℕ

-- A row of `transfromInspections`
pub record InspectionRow : Type 0 where
  pub id : ℕ
  pub title : ℕ
  pub inspection_date : ℕ
  pub status : PropertyInspectionStatus
  pub host_id : ℕ

-- The bookings whose payments `calculateRevenue` counts
abbrev pub earns : BookingStatus → Bool
earns s = not (is_cancelled s) && not (is_pending s)

-- The payment of a booking that counts is read.
unfoldable pub calculate_revenue : (Booking → Option Payment) → List Booking → Result ℤ
unfolding host_payment
calculate_revenue payment_of [] = ok (pos 0)
calculate_revenue payment_of (b ∷ bs) =
    let rest = calculate_revenue payment_of bs in
    if earns b.status
    then there (payment_of b) (λ p. there_ok rest λ total. ok (host_payment p +ℤ total))
    else rest

unfoldable pub number_of_bookings : List Booking → ℕ
number_of_bookings [] = 0
number_of_bookings (b ∷ bs) =
    let rest = number_of_bookings bs in
    if is_finished b.status || (is_paid_pending b.status || is_processing b.status)
    then 1 + rest
    else rest

unfoldable pub transform_inspection : PropertyInspection → InspectionRow
transform_inspection x = record {
  id = x.id;
  title = x.title;
  inspection_date = x.inspection_date;
  status = x.status;
  host_id = x.host_id;
}

module _ (orm : Orm) where
  -- The relation `propertyInspection`
  abbrev pub inspection_of : World → Property → Option PropertyInspection
  inspection_of w p = orm.find_one PropertyInspection (λ x. holds x.property_id p.id) w.inspections

  abbrev pub bookings_of : World → Property → List Booking
  bookings_of w p = orm.find Booking (λ b. b.property_id == p.id) w.bookings

  -- The inspection of a listing is taken apart, so it has to be there.
  unfoldable pub transform_property : World → Property → Result ListingRow
  unfolding calculate_revenue number_of_bookings payment_of
  transform_property w p = there (inspection_of w p) λ x.
      there_ok (calculate_revenue (payment_of orm w) (bookings_of w p)) λ revenue. ok (record {
        id = p.id;
        status = x.status;
        active_status = p.active_status;
        bookings = number_of_bookings (bookings_of w p);
        revenue = revenue;
        active_from = x.date_approved;
      })

  unfoldable pub get_all : World → Result (List ListingRow)
  unfolding transform_property all_rows
  get_all w = all_rows (transform_property w) (orm.find Property (λ p. true) w.properties)

  unfoldable pub get_all_property : ℕ → World → Result (List ListingRow)
  unfolding transform_property all_rows
  get_all_property host w =
      all_rows (transform_property w) (orm.find Property (λ p. p.host_id == host) w.properties)

  unfoldable pub get_all_inspections : World → List InspectionRow
  unfolding transform_inspection
  get_all_inspections w =
      map transform_inspection (orm.find PropertyInspection (λ x. true) w.inspections)

  unfoldable pub get_all_property_inspections : ℕ → World → List InspectionRow
  unfolding transform_inspection
  get_all_property_inspections host w =
      map transform_inspection (orm.find PropertyInspection (λ x. x.host_id == host) w.inspections)

  -- The listing is counted as viewed if it is there, and its host is read whether it is or not.
  unfoldable pub get_property_by_id : ℕ → Handler Property
  get_property_by_id i = do
    property ← gets λ w. orm.find_one Property (λ p. p.id == i) w.properties
    modify λ w. record w {
      properties =
          orm.update Property (λ p. (p.id == i) && is_set property)
            (λ p. record p { views = p.views + 1 }) w.properties;
    }
    deref property

  unfoldable pub get_recommended_properties_by_city : ℕ → ℕ → World → List Property
  get_recommended_properties_by_city city limit w =
      take limit
        (orm.find Property (λ p. (p.city == city) && is_active p.active_status) w.properties)
