-- ===== src/Tests/Views.antt =====
-- The views of bookings on sample rows.
use sojourn_backend.Prelude.{◌≡◌, refl, pos, ◌-ℤ◌, ◌*ℤ◌, true, none, some, [], ◌∷◌, All, Mem}
use sojourn_backend.Entities.{Booking, BookingStatus, Payment, PaymentStatus, Wallet}
use sojourn_backend.App.{World, ok}
use sojourn_backend.Tasks.BookingJobs.{payment_of}
use sojourn_backend.Checkout.Pricing.{amount_due}
use sojourn_backend.Checkout.Initialize.{Sale, card_sale, payment_row}
use sojourn_backend.Booking.Views.{
  BookingRow, ShownStatus, SingleBookingView, get_booking_by_id, get_host_booking_by_id,
  property_of, guest_of, get_bookings_by_guest_id,
}
use sojourn_backend.Booking.Shown.{sale_shown, guest_list_shows-IsOwn}
use sojourn_backend.Tests.Database.{list_orm}
use sojourn_backend.Tests.Samples.{booking, guest, owner, sample, villa}

abbrev sold : Sale
sold = card_sale villa guest owner 30000 (pos 500) (record { status = true; reference = 101 })

abbrev purse : Wallet
purse = record { id = 1; host_id = 30 }

abbrev stay : Booking
stay = booking 10 BookingStatus.paid_pending none

abbrev shop : World
shop = record sample {
  bookings = stay ∷ [];
  payments =
      record (payment_row 7 sold stay purse 1) { payment_status = PaymentStatus.completed } ∷ [];
}

sale_shown_example :
    (v : SingleBookingView) × (v' : SingleBookingView) × (get_booking_by_id list_orm 10 shop ≡ ok v)
    × (get_host_booking_by_id list_orm 10 shop ≡ ok v')
    × (v.total ≡ pos 1000 *ℤ amount_due 30000 6000 (pos 500))
    × (v'.payment ≡ pos 980 *ℤ (pos 30000 -ℤ pos 500 -ℤ pos 500))
unfolding list_orm payment_of payment_row property_of guest_of card_sale
sale_shown_example =
    sale_shown list_orm 7 1 sold purse PaymentStatus.completed shop stay villa guest refl refl refl
      refl

guest_list_shows-IsOwn_example :
    All
      (λ (r : BookingRow).
        (b : Booking) × (p : Payment) × Mem b shop.bookings
        × (b.guest_id ≡ 40)
        × (r.id ≡ b.id)
        × (payment_of list_orm shop b ≡ some p)
        × (r.payment ≡ p.amount)
        × (r.status ≡ ShownStatus.cancelled → p.payment_status ≡ PaymentStatus.completed))
      (record {
        id = 10;
        people = pos 3;
        status = ShownStatus.confirmed;
        payment = pos 40750;
        holding_window = none;
        is_booking_cancellable = true;
      }
        ∷ [])
unfolding get_bookings_by_guest_id list_orm payment_row ◌-ℤ◌ card_sale
guest_list_shows-IsOwn_example = guest_list_shows-IsOwn list_orm 7 40 shop _ refl
