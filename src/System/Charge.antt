-- ===== src/System/Charge.antt =====
-- A sale that is charged: the checkout and the webhook together.
use sojourn_backend.Prelude.{
  ℕ, ◌≡◌, ◌≢◌, refl, ap, ◌∙◌, true, false, some, All, All-map, Option-cases, Bool-cases, inl, inr,
  ◌==◌, arith,
}
use sojourn_backend.Entities.{Booking, Payment, PaymentStatus, Property, User, Host, Wallet}
use sojourn_backend.Orm.{Orm, where_eq}
use sojourn_backend.Orm.Saving.{found-saved}
use sojourn_backend.App.{ok, World}
use sojourn_backend.Checkout.Validation.{CheckoutDto}
use sojourn_backend.Checkout.Initialize.{
  Sale, booking_row, payment_row, record_sale, get_host_wallet_by_host_id, record_referal,
}
use sojourn_backend.Wallet.Credits.{add_sojourn_credits}
use sojourn_backend.Webhook.Message.{PaystackData}
use sojourn_backend.Webhook.Confirm.{
  get_payment_by_reference, booking_of, user_of, host_of, settle_payment, update_payment,
  update_payment_found,
}
use sojourn_backend.Webhook.Settled.{settle_payment_effect, settle_returns}

module _ (orm : Orm) where
  -- What a sale has written: a payment for a new booking, both found again by their keys.
  pub record IsWritten (now : ℕ) (dto : CheckoutDto) (s : Sale) (w : World) (p : Payment)
      (w' : World) : Type 0 where
    pub bookings :
        w'.bookings
        ≡ orm.save Booking
            (λ x. x.id)
            (booking_row now dto s (orm.generate Booking (λ x. x.id) w.bookings))
            w.bookings
    pub payments : w'.payments ≡ orm.save Payment (λ x. x.id) p w.payments
    pub properties : w'.properties ≡ w.properties
    pub users : w'.users ≡ w.users
    pub hosts : w'.hosts ≡ w.hosts
    pub booked : p.booking_id ≡ some (orm.generate Booking (λ x. x.id) w.bookings)
    pub paid_by : p.user_id ≡ some s.guest.id
    pub paid_to : p.host_id ≡ some s.owner_id
    pub referenced : p.paystack_reference ≡ some s.payment_reference

  pub record_sale-IsWritten :
      (now : ℕ) (dto : CheckoutDto) (s : Sale) (w : World)
      → (p : Payment) × ((record_sale orm now dto s w).0 ≡ ok p)
        × IsWritten now dto s w p (record_sale orm now dto s w).1
  unfolding record_sale get_host_wallet_by_host_id record_referal add_sojourn_credits
  record_sale-IsWritten now dto s w =
      elim (Option-cases (orm.find_one Wallet (λ x. x.host_id == s.property.host_id) w.wallets)) [
        | inl e ↦ (
          paid created,
          ground arith,
          record {
            bookings = ground arith;
            payments = ground arith;
            properties = ground arith;
            users = ground arith;
            hosts = ground arith;
            booked = ground arith;
            paid_by = ground arith;
            paid_to = ground arith;
            referenced = ground arith;
          },
        )
        | inr (x, e) ↦ (
          paid x,
          ground arith,
          record {
            bookings = ground arith;
            payments = ground arith;
            properties = ground arith;
            users = ground arith;
            hosts = ground arith;
            booked = ground arith;
            paid_by = ground arith;
            paid_to = ground arith;
            referenced = ground arith;
          },
        )
      ]
    where
      b : Booking
      b = booking_row now dto s (orm.generate Booking (λ x. x.id) w.bookings)

      created : Wallet
      created = record {
        id = orm.generate Wallet (λ y. y.id) w.wallets;
        host_id = s.property.host_id;
      }

      paid : Wallet → Payment
      paid x = payment_row now s b x (orm.generate Payment (λ y. y.id) w.payments)

  -- The charge that Paystack reports for a sale confirms its payment.
  pub charge_confirms :
      (now : ℕ) (dto : CheckoutDto) (s : Sale) (w w' : World) (p : Payment) (user : User)
      (host : Host) (d : PaystackData)
      → IsWritten now dto s w p w'
      → All (λ q. q.paystack_reference ≢ some s.payment_reference) w.payments
      → orm.find_one Property (λ x. x.id == s.property.id) w.properties ≡ some s.property
      → orm.find_one User (λ u. u.id == s.guest.id) w.users ≡ some user
      → user.has_profile ≡ true
      → orm.find_one Host (λ h. h.id == s.owner_id) w.hosts ≡ some host
      → d.reference ≡ some s.payment_reference
      → d.status_success ≡ true
      → let (r, v) = update_payment orm d w' in
        (r ≡ ok true)
        × (v.payments
            ≡ orm.save Payment
                (λ x. x.id)
                (record p { payment_status = PaymentStatus.completed })
                w'.payments)
  unfolding update_payment update_payment_found get_payment_by_reference booking_of user_of host_of
      booking_row
  charge_confirms now dto s w w' p user host d written fresh ep eu profile eh same success =
      let b = booking_row now dto s (orm.generate Booking (λ x. x.id) w.bookings) in
      let found : orm.find_one Payment
            (λ q. where_eq orm q.paystack_reference (some s.payment_reference)) w'.payments
          ≡ some p =
        rw (written.payments) (
          found-saved orm (λ x. x.id) _ p w.payments (rw (written.referenced) (ground arith))
            (All-map (λ q. q.paystack_reference ≢ some s.payment_reference) _
              (λ q other _. unread q other) w.payments fresh)) in
      let booking : booking_of orm w' p ≡ some b =
        rw (booking_of, written.booked, written.bookings)
          (orm.save_found Booking (λ x. x.id) b w.bookings) in
      let property : orm.find_one Property (λ x. x.id == b.property_id) w'.properties
          ≡ some s.property =
        rw (written.properties) ep in
      let guest : user_of orm w' p ≡ some user = rw (user_of, written.paid_by, written.users) eu in
      let owner : host_of orm w' p ≡ some host = rw (host_of, written.paid_to, written.hosts) eh in
      let returned =
        settle_returns orm p s.payment_reference w' b s.property user host booking property guest
          profile owner in
      let v = (settle_payment orm true p s.payment_reference w').1 in
      let effect =
        settle_payment_effect orm true true p s.payment_reference w' v
          (ap (λ r. (r, v)) returned.0) in
      ground (arith, effect.1)
    where
      unread :
          (q : Payment)
          → q.paystack_reference ≢ some s.payment_reference
          → where_eq orm q.paystack_reference (some s.payment_reference) ≡ false
      unread q other = elim (Option-cases q.paystack_reference) [
        | inl e ↦ rw e refl
        | inr (j, e) ↦ elim (Bool-cases (j == s.payment_reference)) [
          | inl hit ↦
              let same : j ≡ s.payment_reference = ground arith in absurd (other (e ∙ ap some same))
          | inr miss ↦ rw e miss
        ]
      ]
