-- ===== src/Checkout/Validation.antt =====
-- The checks at the head of `initializeTransaction` and `initializeCryptoTransaction`.
use sojourn_backend.Prelude.{
  ℕ, ◌<◌, ◌≡◌, ◌↔◌, ℤ, pos, ltb_ℤ, Bool, true, not, Option, ltb, arith, ◌+ℤ◌, ◌≤ℤ◌,
}
use sojourn_backend.Orm.{Orm}
use sojourn_backend.App.{World, Handler, ok, Exception, ◌>>=◌, ◌>>◌, throw_if}
use sojourn_backend.Booking.Availability.{ListingDates, check_availability_of_listing}
use sojourn_backend.Time.{number_of_nights}
use sojourn_backend.Time.Nights.{one_night_iff_later}

-- `initializeTransactionDto`. No pipe checks the numbers of guests, so they may be negative.
pub record CheckoutDto : Type 0 where
  pub credits : Option ℤ
  pub property_id : ℕ
  pub user_id : ℕ
  pub check_in_date : ℕ
  pub check_out_date : ℕ
  pub number_of_adults : ℤ
  pub number_of_children : ℤ
  pub number_of_infants : ℤ

abbrev pub listing_dates : CheckoutDto → ListingDates
listing_dates dto = record {
  property_id = dto.property_id;
  check_in_date = dto.check_in_date;
  check_out_date = dto.check_out_date;
}

-- The children are counted twice, and the infants not at all.
unfoldable pub number_of_guests : CheckoutDto → ℤ
number_of_guests dto = dto.number_of_adults +ℤ dto.number_of_children +ℤ dto.number_of_children

module _ (orm : Orm) (brackets : Bool) (today : ℕ) where
  unfoldable pub validate_checkout : CheckoutDto → Handler (Unit {0})
  unfolding number_of_guests
  validate_checkout dto = do
    free ← check_availability_of_listing orm brackets (listing_dates dto)
    throw_if (not free) Exception.dates_not_available
    throw_if (ltb_ℤ (number_of_nights today dto.check_in_date) (pos 1)) Exception.check_in_too_early
    throw_if (not (ltb dto.check_in_date dto.check_out_date)) Exception.check_out_too_early
    throw_if (ltb_ℤ (number_of_nights dto.check_in_date dto.check_out_date) (pos 1))
        Exception.stay_too_short
    throw_if (ltb_ℤ (number_of_guests dto) (pos 1)) Exception.no_guests

  -- The checks of a checkout pass exactly when the listing is free, the stay begins after the
  -- present instant and ends after it begins, and the adults and twice the children, which may be
  -- negative, come to one at least.
  pub validate_checkout_iff :
      (dto : CheckoutDto) (w : World)
      → ((validate_checkout dto w).0 ≡ ok tt) ↔ (
          ((check_availability_of_listing orm brackets (listing_dates dto) w).0 ≡ ok true)
          × (today < dto.check_in_date)
          × (dto.check_in_date < dto.check_out_date)
          × (pos 1 ≤ℤ dto.number_of_adults +ℤ dto.number_of_children +ℤ dto.number_of_children))
  unfolding validate_checkout check_availability_of_listing
  validate_checkout_iff dto w = ground (
    arith,
    one_night_iff_later today dto.check_in_date,
    one_night_iff_later dto.check_in_date dto.check_out_date,
  )

  -- The checks only read.
  pub world-validate_checkout : (dto : CheckoutDto) (w : World) → (validate_checkout dto w).1 ≡ w
  unfolding validate_checkout check_availability_of_listing
  world-validate_checkout dto w = ground arith
