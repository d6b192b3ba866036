-- ===== src/Tests/Checkouts.antt =====
-- Checkouts on the sample rows.
use sojourn_backend.Prelude.{◌≡◌, ◌<◌, ◌↔◌, refl, ℤ, true, none, some, Option, pos, ◌≤ℤ◌, ◌+ℤ◌}
use sojourn_backend.App.{ok}
use sojourn_backend.Time.{number_of_nights}
use sojourn_backend.Booking.Availability.{
  conflicts, is_active_booking, check_availability_of_listing,
}
use sojourn_backend.Checkout.Validation.{listing_dates, validate_checkout, validate_checkout_iff}
use sojourn_backend.Checkout.Initialize.{PaystackReply, card_sale, initialize_transaction}
use sojourn_backend.Checkout.Crypto.{NowPayments}
use sojourn_backend.Checkout.Recorded.{Records, seen, stay_base, stay_credits, initialize_succeeds}
use sojourn_backend.Tests.Database.{list_orm}
use sojourn_backend.Tests.Samples.{on, villa, guest, owner, sample, request}

validate_checkout_iff_example :
    ((validate_checkout list_orm true (on 9) request sample).0 ≡ ok tt) ↔ (
      ((check_availability_of_listing list_orm true (listing_dates request) sample).0 ≡ ok true)
      × (on 9 < on 10)
      × (on 10 < on 12)
      × (pos 1
          ≤ℤ request.number_of_adults +ℤ request.number_of_children +ℤ request.number_of_children))
validate_checkout_iff_example = validate_checkout_iff list_orm true (on 9) request sample

-- Paystack, when it accepts whatever it is asked, and when it cannot be reached.
abbrev pub accepted : PaystackReply
accepted = record { status = true; reference = 900 }

abbrev pub accepting : ℤ → Option PaystackReply
accepting total = some accepted

abbrev unreachable : ℤ → Option PaystackReply
unreachable total = none

abbrev silent : NowPayments
silent = record {
  currency_available = none;
  minimum_amount = none;
  estimated_amount = λ total rate. none;
  create_payment = λ total rate. none;
}

initialize_succeeds_example :
    let (r, w') = initialize_transaction list_orm accepting true (on 9) request sample in
    (p : _) × (r ≡ ok p)
    × Records list_orm
        (on 9)
        request
        (card_sale villa
          (seen list_orm guest)
          owner
          (stay_base list_orm request villa)
          (stay_credits list_orm request guest sample)
          accepted)
        sample
        p
        w'
unfolding list_orm validate_checkout check_availability_of_listing conflicts is_active_booking
    number_of_nights ◌+ℤ◌
initialize_succeeds_example =
    initialize_succeeds list_orm accepting true (on 9) request sample villa guest owner accepted
      refl refl refl refl refl refl
