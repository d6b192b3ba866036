-- ===== src/Checkout/Recorded.antt =====
-- What a checkout writes, and what it leaves alone.
use sojourn_backend.Prelude.{
  ℕ, ◌+◌, ◌≡◌, ℤ, Bool, true, Option, none, some, ◌==◌, arith, Option-cases, inl, inr,
}
use sojourn_backend.Entities.{
  Booking, BookingStatus, Payment, PaymentStatus, Property, User, Host, Wallet,
}
use sojourn_backend.Orm.{Orm}
use sojourn_backend.App.{World, ok}
use sojourn_backend.Time.{number_of_nights}
use sojourn_backend.Wallet.Credits.{add_sojourn_credits, get_total_sojourn_credits_by_user_id}
use sojourn_backend.Checkout.Pricing.{amount_due, in_kobo, credits_to_apply, base_price}
use sojourn_backend.Checkout.Validation.{CheckoutDto, validate_checkout, world-validate_checkout}
use sojourn_backend.Checkout.Initialize.{
  PaystackReply, Sale, card_sale, holding_time, record_sale, price_stay, initialize_transaction,
  booking_row, payment_row, get_host_wallet_by_host_id, record_referal,
}

module _ (orm : Orm) where
  -- The booking and the payment that a sale writes, as rows of the two tables.
  abbrev pub Records : ℕ → CheckoutDto → Sale → World → Payment → World → Type 0
  Records now dto s w p w' =
      (b : Booking) × (w'.bookings ≡ orm.save Booking (λ x. x.id) b w.bookings)
      × (w'.payments ≡ orm.save Payment (λ x. x.id) p w.payments)
      × (p.booking_id ≡ some b.id)
      × (b.status ≡ BookingStatus.pending)
      × (b.holding_window ≡ some (now + holding_time))
      × (p.payment_status ≡ PaymentStatus.pending)
      × (p.amount ≡ amount_due s.base s.property.caution_fee s.applied)

  pub record_sale-Records :
      (now : ℕ) (dto : CheckoutDto) (s : Sale) (w : World)
      → (p : Payment) × ((record_sale orm now dto s w).0 ≡ ok p)
        × Records now dto s w p (record_sale orm now dto s w).1
  unfolding record_sale get_host_wallet_by_host_id record_referal add_sojourn_credits
  record_sale-Records now dto s w =
      elim (Option-cases (orm.find_one Wallet (λ x. x.host_id == s.property.host_id) w.wallets)) [
        | inl e ↦ (
          paid created,
          ground arith,
          (
            b,
            ground arith,
            ground arith,
            ground arith,
            ground arith,
            ground arith,
            ground arith,
            ground arith,
          ),
        )
        | inr (x, e) ↦ (
          paid x,
          ground arith,
          (
            b,
            ground arith,
            ground arith,
            ground arith,
            ground arith,
            ground arith,
            ground arith,
            ground arith,
          ),
        )
      ]
    where
      b : Booking
      b = booking_row now dto s (orm.generate Booking (λ x. x.id) w.bookings)

      created : Wallet
      created = record {
        id = orm.generate Wallet (λ y. y.id) w.wallets;
        host_id = s.property.host_id;
      }

      paid : Wallet → Payment
      paid x = payment_row now s b x (orm.generate Payment (λ y. y.id) w.payments)

  -- What the code reads of a guest.
  abbrev pub seen : User → User
  seen u = record u { referer_id = none; password = none; host_id = none }

  abbrev pub stay_base : CheckoutDto → Property → ℕ
  stay_base dto property =
      base_price property.price (number_of_nights dto.check_in_date dto.check_out_date)

  abbrev pub stay_credits : CheckoutDto → User → World → ℤ
  stay_credits dto guest w =
      credits_to_apply dto.credits (get_total_sojourn_credits_by_user_id orm guest.id w)

  -- Such a checkout comes to the recording of its sale.
  pub initialize-record_sale :
      (paystack : ℤ → Option PaystackReply) (brackets : Bool) (now : ℕ) (dto : CheckoutDto)
      (w : World) (property : Property) (user : User) (host : Host) (reply : PaystackReply)
      → (validate_checkout orm brackets now dto w).0 ≡ ok tt
      → orm.find_one Property (λ p. p.id == dto.property_id) w.properties ≡ some property
      → orm.find_one User (λ u. u.id == dto.user_id) w.users ≡ some user
      → orm.find_one Host (λ h. h.id == property.host_id) w.hosts ≡ some host
      → paystack (
          in_kobo
            (amount_due (stay_base dto property) property.caution_fee (stay_credits dto user w)))
        ≡ some reply
      → reply.status ≡ true
      → initialize_transaction orm paystack brackets now dto w
        ≡ record_sale orm now dto
            (card_sale property
              (seen user)
              host
              (stay_base dto property)
              (stay_credits dto user w)
              reply)
            w
  unfolding initialize_transaction price_stay
  initialize-record_sale paystack brackets now dto w property user host reply valid ep eu eh ey es =
      let same = world-validate_checkout orm brackets now dto w in ground arith

  -- A checkout whose checks pass, whose property, guest and host exist, and which Paystack
  -- accepts, succeeds and writes a pending booking held for thirty minutes and a pending payment
  -- for it of the amount due.
  pub initialize_succeeds :
      (paystack : ℤ → Option PaystackReply) (brackets : Bool) (now : ℕ) (dto : CheckoutDto)
      (w : World) (property : Property) (user : User) (host : Host) (reply : PaystackReply)
      → (validate_checkout orm brackets now dto w).0 ≡ ok tt
      → orm.find_one Property (λ p. p.id == dto.property_id) w.properties ≡ some property
      → orm.find_one User (λ u. u.id == dto.user_id) w.users ≡ some user
      → orm.find_one Host (λ h. h.id == property.host_id) w.hosts ≡ some host
      → paystack (
          in_kobo
            (amount_due (stay_base dto property) property.caution_fee (stay_credits dto user w)))
        ≡ some reply
      → reply.status ≡ true
      → let (r, w') = initialize_transaction orm paystack brackets now dto w in
        (p : Payment) × (r ≡ ok p)
        × Records now dto
            (card_sale property
              (seen user)
              host
              (stay_base dto property)
              (stay_credits dto user w)
              reply)
            w
            p
            w'
  initialize_succeeds paystack brackets now dto w property user host reply valid ep eu eh ey es =
      rw
        (initialize-record_sale paystack brackets now dto w property user host reply valid ep eu eh
          ey es)
        (record_sale-Records now dto _ w)
