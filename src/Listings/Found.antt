-- ===== src/Listings/Found.antt =====
-- What a search shows.
use sojourn_backend.Prelude.{ℕ, ◌≡◌, true}
use sojourn_backend.Entities.{Booking, Property, PropertyStatus}
use sojourn_backend.Orm.{Orm}
use sojourn_backend.App.{World, ok}
use sojourn_backend.Booking.Availability.{ListingDates, check_availability_of_listing}
use sojourn_backend.Listings.Search.{SearchParams}

-- The dates of a search, for one listing
abbrev pub dates_of : SearchParams → Property → ListingDates
dates_of v p = record {
  property_id = p.id;
  check_in_date = v.check_in_date;
  check_out_date = v.check_out_date;
}

module _ (orm : Orm) where
  -- A listing that is open to a checkout on the dates of a search, in the city of the search.
  abbrev pub IsOnOffer : SearchParams → ℕ → World → Property → Type 0
  IsOnOffer v c w p =
      (p.active_status ≡ PropertyStatus.active)
      × (p.city ≡ c)
      × ((check_availability_of_listing orm true (dates_of v p) w).0 ≡ ok true)
