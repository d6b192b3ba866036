-- ===== src/Staff.antt =====
-- Inspectors and administration: src/inspectors/inspectors.service.ts,
-- src/repositories/inspectors.repository.ts, src/admin/admin.service.ts and
-- src/repositories/rates.repository.ts. The names of an inspector are left out.
use sojourn_backend.Prelude.{
  ℕ, ℤ, pos, ◌+ℤ◌, true, not, ◌&&◌, Option, none, some, is_set, holds, List, [], ◌∷◌, length, ◌==◌,
}
use sojourn_backend.Entities.{Inspector, PropertyInspection, Payment, is_completed, is_booking_type}
use sojourn_backend.Orm.{Orm}
use sojourn_backend.App.{
  World, Handler, Result, ok, Exception, ◌>>=◌, ◌>>◌, pure, gets, modify, or_throw, throw_if,
  or_else_throw,
}
use sojourn_backend.Booking.Views.{there}

-- What `getDashBoardData` counts
pub record DashBoard : Type 0 where
  pub bookings : ℕ
  pub guests : ℕ
  pub hosts : ℕ
  pub properties : ℕ
  pub total : ℤ
  pub reviews : ℕ
  pub rate : ℕ

unfoldable pub calculate_total : List Payment → ℤ
calculate_total [] = pos 0
calculate_total (p ∷ ps) = let rest = calculate_total ps in p.amount +ℤ rest

module _ (orm : Orm) where
  abbrev count : {Row : Type 0} → List Row → ℕ
  count t = length (orm.find _ (λ r. true) t)

  unfoldable pub get_inspector_by_email : ℕ → World → Option Inspector
  get_inspector_by_email email w = orm.find_one Inspector (λ x. x.email == email) w.inspectors

  -- `photo` is what the upload of the photo answers, if it does.
  unfoldable pub create_inspector : ℕ → Option ℕ → Handler Inspector
  unfolding get_inspector_by_email
  create_inspector email photo =
      or_else_throw
        (do
          existing ← gets (get_inspector_by_email email)
          throw_if (is_set existing) Exception.user_exists
          url ← or_throw photo Exception.internal
          x ← gets λ w. record {
            id = orm.generate Inspector (λ x. x.id) w.inspectors;
            email = email;
            photo = url;
          }
          modify λ w. record w { inspectors = orm.save Inspector (λ x. x.id) x w.inspectors }
          pure x)
        Exception.internal

  unfoldable pub get_inspectors : World → List Inspector
  get_inspectors w = orm.find Inspector (λ x. true) w.inspectors

  -- The inspectors who are joined to an inspection other than this one, on another date.
  unfoldable pub get_inspectors_by_inspection_id : ℕ → World → Result (List Inspector)
  get_inspectors_by_inspection_id i w =
      there (orm.find_one PropertyInspection (λ x. x.id == i) w.inspections) λ x. ok (
        orm.find Inspector
          (λ r. is_set (
            orm.find_one PropertyInspection
              (λ y.
                holds y.inspector_id r.id
                && (not (y.id == i) && not (y.inspection_date == x.inspection_date)))
              w.inspections))
          w.inspectors)

  unfoldable pub get_dash_board_data : World → DashBoard
  unfolding calculate_total
  get_dash_board_data w = record {
    bookings = count w.bookings;
    guests = count w.users;
    hosts = count w.hosts;
    properties = count w.properties;
    total = calculate_total (
        orm.find Payment (λ p. is_completed p.payment_status && is_booking_type p.payment_type)
          w.payments);
    reviews = count w.reviews;
    rate = elim w.rate [ none ↦ 0 | some r ↦ r ];
  }

-- The row of the rate is replaced, or created if there is none.
unfoldable pub create_or_update_currency_rate : ℕ → Handler ℕ
create_or_update_currency_rate rate w = (ok rate, record w { rate = some rate })
