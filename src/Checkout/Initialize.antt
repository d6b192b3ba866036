-- ===== src/Checkout/Initialize.antt =====
-- `initializeTransaction` of src/payments/payments.service.ts, and what it shares with
-- `initializeCryptoTransaction`, with the repository functions that they call. The payment providers are functions: each
-- gives the answer to a request, or `none` when the request fails.
use sojourn_backend.Prelude.{
  ℕ, ◌+◌, ℤ, pos, ◌-ℤ◌, ltb_ℤ, Bool, not, ◌&&◌, Option, none, some, holds, ◌==◌,
}
use sojourn_backend.Entities.{
  Booking, BookingStatus, Payment, PaymentStatus, PaymentTypes, PaymentMethod, Property, User, Host,
  Wallet, Referal, ReferalStatus, ReferalTransactionStatus, ReferalType, SojournCreditsType,
}
use sojourn_backend.Orm.{Orm}
use sojourn_backend.App.{
  World, Handler, ok, Exception, ◌>>=◌, ◌>>◌, pure, gets, deref, or_throw, throw_if, when,
  set_bookings, set_payments, set_referals,
}
use sojourn_backend.Time.{number_of_nights}
use sojourn_backend.Wallet.Credits.{add_sojourn_credits, get_total_sojourn_credits_by_user_id}
use sojourn_backend.Checkout.Pricing.{
  base_price, service_fee, vat_on, credits_to_apply, amount_due, in_kobo, credits_earned,
}
use sojourn_backend.Checkout.Validation.{CheckoutDto, validate_checkout}

-- `REFERAL_AMOUNT`, and 30 * 60000, the milliseconds of the holding window
abbrev pub referal_amount : ℤ
referal_amount = pos 500

abbrev pub holding_time : ℕ
holding_time = 1800000

-- What the provider says of a new transaction.
pub record PaystackReply : Type 0 where
  pub status : Bool
  pub reference : ℕ

-- What a checkout has settled when it comes to be recorded.
pub record Sale : Type 0 where
  pub property : Property
  pub guest : User
  pub owner_id : ℕ
  pub base : ℕ
  pub applied : ℤ
  pub paid_by : PaymentMethod
  pub payment_reference : ℕ
  pub crypto_address : Option ℕ
  pub crypto_amount : ℕ

-- A sale that is paid through Paystack; the method is the column's default.
unfoldable pub card_sale : Property → User → Host → ℕ → ℤ → PaystackReply → Sale
card_sale property guest host base applied reply = record {
  property = property;
  guest = guest;
  owner_id = host.id;
  base = base;
  applied = applied;
  paid_by = PaymentMethod.card;
  payment_reference = reply.reference;
  crypto_address = none;
  crypto_amount = 0;
}

-- The rows that a checkout writes.
unfoldable pub booking_row : ℕ → CheckoutDto → Sale → ℕ → Booking
booking_row now dto s i = record {
  id = i;
  property_id = s.property.id;
  guest_id = s.guest.id;
  check_in = dto.check_in_date;
  check_out = dto.check_out_date;
  number_of_adults = dto.number_of_adults;
  number_of_children = dto.number_of_children;
  number_of_infants = dto.number_of_infants;
  status = BookingStatus.pending;
  holding_window = some (now + holding_time);
  crypto_payment_address = s.crypto_address;
  crypto_payment_amount = s.crypto_amount;
}

unfoldable pub payment_row : ℕ → Sale → Booking → Wallet → ℕ → Payment
unfolding amount_due service_fee vat_on
payment_row now s b x i = record {
  id = i;
  booking_id = some b.id;
  user_id = some s.guest.id;
  host_id = some s.owner_id;
  wallet_id = some x.id;
  withdrawal_id = none;
  payment_status = PaymentStatus.pending;
  payment_type = PaymentTypes.booking;
  payment_method = s.paid_by;
  paystack_reference = some s.payment_reference;
  amount = amount_due s.base s.property.caution_fee s.applied;
  transaction_fee = pos (service_fee s.base);
  vat = pos (vat_on s.base);
  sojourn_credits_amount = some s.applied;
  caution_fee = some (pos s.property.caution_fee);
  created_at = now;
}

module _ (orm : Orm) where
  unfoldable pub get_property_by_id : ℕ → World → Option Property
  get_property_by_id i w = orm.find_one Property (λ p. p.id == i) w.properties

  -- `getGuestById` selects the id, the e-mail address and the name, so `refererId` is undefined
  -- in what it returns.
  unfoldable pub get_guest_by_id : ℕ → World → Option User
  get_guest_by_id i w = elim (orm.find_one User (λ u. u.id == i) w.users) [
    | none ↦ none
    | some u ↦ some (record u { referer_id = none; password = none; host_id = none })
  ]

  -- `getHostByPropertyId`, and the relation `host` of what it returns
  unfoldable pub get_host_by_property_id : ℕ → World → Option Host
  get_host_by_property_id i w = elim (orm.find_one Property (λ p. p.id == i) w.properties) [
    | none ↦ none
    | some p ↦ orm.find_one Host (λ h. h.id == p.host_id) w.hosts
  ]

  unfoldable pub create_booking : (ℕ → Booking) → Handler Booking
  create_booking row w =
      let b = row (orm.generate Booking (λ x. x.id) w.bookings) in
      (ok b, set_bookings (orm.save Booking (λ x. x.id) b w.bookings) w)

  unfoldable pub create_payment : (ℕ → Payment) → Handler Payment
  create_payment row w =
      let p = row (orm.generate Payment (λ x. x.id) w.payments) in
      (ok p, set_payments (orm.save Payment (λ x. x.id) p w.payments) w)

  -- `getHostWalletByHostId`: the wallet, which is created if there is none
  unfoldable pub get_host_wallet_by_host_id : ℕ → Handler Wallet
  get_host_wallet_by_host_id host w =
      elim (orm.find_one Wallet (λ x. x.host_id == host) w.wallets) [
        | some x ↦ (ok x, w)
        | none ↦
            let x : Wallet = record {
              id = orm.generate Wallet (λ y. y.id) w.wallets;
              host_id = host;
            } in
            (ok x, record w { wallets = orm.save Wallet (λ y. y.id) x w.wallets })
      ]

  -- The referral that is recorded for a guest who has a referrer, once for each pair.
  unfoldable pub record_referal : Sale → Booking → Handler (Unit {0})
  record_referal s b w = elim s.guest.referer_id [
    | none ↦ (ok tt, w)
    | some referer ↦
        elim (orm.find_one Referal (λ r. (r.referer_id == referer) && holds r.user_id s.guest.id)
          w.referals) [
            | some r ↦ (ok tt, w)
            | none ↦ (
              ok tt,
              set_referals
                  (orm.save Referal (λ r. r.id)
                    (record {
                      id = orm.generate Referal (λ r. r.id) w.referals;
                      referer_id = referer;
                      user_id = some s.guest.id;
                      booking_id = some b.id;
                      amount = referal_amount;
                      payment_status = ReferalTransactionStatus.credit;
                      paystack_status = ReferalStatus.unpaid;
                      payment_type = ReferalType.incoming;
                      reference = some s.payment_reference;
                    })
                    w.referals)
                  w,
            )
          ]
  ]

  -- What both functions do once the provider has agreed: the booking, the wallet of the host,
  -- the payment, the credits spent, the referral and the credits earned.
  unfoldable pub record_sale : ℕ → CheckoutDto → Sale → Handler Payment
  unfolding booking_row payment_row create_booking create_payment
  record_sale now dto s = do
    b ← create_booking (booking_row now dto s)
    x ← get_host_wallet_by_host_id s.property.host_id
    p ← create_payment (payment_row now s b x)
    when (ltb_ℤ (pos 0) s.applied) (
        add_sojourn_credits orm (record {
          user_id = s.guest.id;
          amount = pos 0 -ℤ s.applied;
          booking_id = some b.id;
          credit_type = SojournCreditsType.outgoing;
          reference = s.payment_reference;
        }))
    record_referal s b
    add_sojourn_credits orm (record {
      user_id = s.guest.id;
      amount = credits_earned (amount_due s.base s.property.caution_fee s.applied);
      booking_id = some b.id;
      credit_type = SojournCreditsType.incoming;
      reference = s.payment_reference;
    })
    pure p

  -- The property, the guest and the host, with the sums that depend on them.
  unfoldable pub price_stay : CheckoutDto → Handler (Property × User × Host × ℕ × ℤ)
  unfolding get_property_by_id get_guest_by_id get_host_by_property_id base_price
  price_stay dto = do
    property ← deref (← gets (get_property_by_id dto.property_id))
    guest ← deref (← gets (get_guest_by_id dto.user_id))
    host ← deref (← gets (get_host_by_property_id dto.property_id))
    total ← gets (get_total_sojourn_credits_by_user_id orm guest.id)
    let base = base_price property.price (number_of_nights dto.check_in_date dto.check_out_date)
    pure (property, guest, host, base, credits_to_apply dto.credits total)

  unfoldable pub initialize_transaction :
      (ℤ → Option PaystackReply) → Bool → ℕ → CheckoutDto → Handler Payment
  initialize_transaction paystack brackets now dto = do
    validate_checkout orm brackets now dto
    (property, guest, host, base, applied) ← price_stay dto
    reply ←
        or_throw (paystack (in_kobo (amount_due base property.caution_fee applied)))
          Exception.provider_error
    throw_if (not reply.status) Exception.provider_refused
    record_sale now dto (card_sale property guest host base applied reply)
