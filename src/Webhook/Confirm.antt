-- ===== src/Webhook/Confirm.antt =====
-- `updatePayment`, `verifyTransaction` and `verifyCryptoTransaction` of
-- src/payments/payments.service.ts.
use sojourn_backend.Prelude.{
  ℕ, ◌*◌, pos, sub_ℕ, ◌*ℤ◌, Bool, true, false, not, ◌&&◌, Option, none, some, List, [], ◌∷◌, map,
  ◌==◌, ◌+ℤ◌,
}
use sojourn_backend.Entities.{
  Booking, Payment, PaymentStatus, Property, User, Host, Referal, ReferalStatus, SojournCredit,
  SojournCreditsStatus, Subscription, SubscriptionActiveStatus, SubscriptionPayment, is_completed,
}
use sojourn_backend.Orm.{Orm, where_eq}
use sojourn_backend.Orm.Saving.{save_rows}
use sojourn_backend.App.{
  World, Handler, Exception, Event, Confirmation, ◌>>=◌, ◌>>◌, pure, gets, modify, deref, or_throw,
  throw_if, when, emit, set_payments, set_referals, set_credits, set_subscriptions,
}
use sojourn_backend.Time.{number_of_nights, day}
use sojourn_backend.Webhook.Message.{PaystackData}

-- The status that a payment, its referral and its credits take.
abbrev pub payment_status_of : Bool → PaymentStatus
payment_status_of true = PaymentStatus.completed
payment_status_of false = PaymentStatus.pending

abbrev pub referal_status_of : Bool → ReferalStatus
referal_status_of true = ReferalStatus.paid
referal_status_of false = ReferalStatus.unpaid

abbrev pub credit_status_of : Bool → SojournCreditsStatus
credit_status_of true = SojournCreditsStatus.confirmed
credit_status_of false = SojournCreditsStatus.pending

abbrev pub is_empty : {A : Type 0} → List A → Bool
is_empty [] = true
is_empty (x ∷ xs) = false

abbrev pub with_status : Bool → SojournCredit → SojournCredit
with_status success c = record c { status = credit_status_of success }

-- The numbers of the confirmation mails. The cancellation date is two days before the arrival.
unfoldable pub confirmation : Payment → Booking → Property → Confirmation
confirmation p b property =
    let nights = number_of_nights b.check_in b.check_out in
    let lodging = pos property.price *ℤ nights in
    record {
      booking_id = b.id;
      audience = b.number_of_adults +ℤ b.number_of_children +ℤ b.number_of_infants;
      lodging_duration = nights;
      lodging_base_price = property.price;
      lodging_price = lodging;
      service_fee_amount = p.transaction_fee;
      damage_fee_amount = property.caution_fee;
      vat_share_amount = p.vat;
      lodging_total_price = p.amount;
      free_cancel_date = sub_ℕ b.check_in (2 * day);
      host_total_earning = pos 97 *ℤ lodging;
    }

module _ (orm : Orm) where
  -- `getPaymentByReference`, with the relations of the payment
  unfoldable pub get_payment_by_reference : Option ℕ → World → Option Payment
  get_payment_by_reference ref w =
      orm.find_one Payment (λ p. where_eq orm p.paystack_reference ref) w.payments

  unfoldable pub booking_of : World → Payment → Option Booking
  booking_of w p = elim p.booking_id [
    | none ↦ none
    | some i ↦ orm.find_one Booking (λ b. b.id == i) w.bookings
  ]

  unfoldable pub user_of : World → Payment → Option User
  user_of w p = elim p.user_id [ none ↦ none | some i ↦ orm.find_one User (λ u. u.id == i) w.users ]

  unfoldable pub host_of : World → Payment → Option Host
  host_of w p = elim p.host_id [ none ↦ none | some i ↦ orm.find_one Host (λ h. h.id == i) w.hosts ]

  unfoldable pub get_referal_by_user_reference : Option ℕ → World → Option Referal
  get_referal_by_user_reference ref w =
      orm.find_one Referal (λ r. where_eq orm r.reference ref) w.referals

  unfoldable pub get_sojourn_credits_by_reference : Option ℕ → World → List SojournCredit
  get_sojourn_credits_by_reference ref w =
      orm.find SojournCredit (λ c. where_eq orm (some c.reference) ref) w.credits

  unfoldable pub save_payment : Payment → Handler (Unit {0})
  save_payment p = modify λ w. set_payments (orm.save Payment (λ x. x.id) p w.payments) w

  unfoldable pub save_referal : Option Referal → Handler (Unit {0})
  save_referal none = pure tt
  save_referal (some r) = modify λ w. set_referals (orm.save Referal (λ x. x.id) r w.referals) w

  -- `Promise.all(credits.map(c => save(c)))`
  unfoldable pub save_credits : List SojournCredit → Handler (Unit {0})
  save_credits cs = modify λ w. set_credits (save_rows orm (λ c. c.id) cs w.credits) w

  unfoldable pub save_subscription : Subscription → Handler (Unit {0})
  save_subscription s =
      modify λ w. set_subscriptions (orm.save Subscription (λ x. x.id) s w.subscriptions) w

  -- The two mails of a confirmed payment: what they read of the payment has to be there.
  unfoldable pub emit_confirmation : Payment → Handler (Unit {0})
  unfolding confirmation
  emit_confirmation p = do
    b ← deref (← gets λ w. booking_of w p)
    property ← deref (← gets λ w. orm.find_one Property (λ x. x.id == b.property_id) w.properties)
    user ← deref (← gets λ w. user_of w p)
    throw_if (not user.has_profile) Exception.type_error
    host ← deref (← gets λ w. host_of w p)
    emit (Event.guest_booking_created (confirmation p b property))
    emit (Event.host_booking_confirmed (confirmation p b property))

  -- The part of `updatePayment` for a transaction that was found. The payment, the referral with
  -- its reference and the credits with its reference take their status together.
  unfoldable pub settle_payment : Bool → Payment → ℕ → Handler Bool
  settle_payment success p ref = do
    referal ← gets (get_referal_by_user_reference (some ref))
    credits ← gets (get_sojourn_credits_by_reference (some ref))
    when success (emit_confirmation p)
    save_referal (elim referal [
      | none ↦ none
      | some r ↦ some (record r { paystack_status = referal_status_of success })
    ])
    save_payment (record p { payment_status = payment_status_of success })
    save_credits (map (with_status success) credits)
    pure success

  -- The part of `updatePayment` for a charge of a subscription.
  unfoldable pub pay_subscription : PaystackData → Handler Bool
  unfolding save_subscription
  pay_subscription d = do
    found ←
        gets
          λ w. orm.find_one Subscription (λ s. s.customer_email == d.customer_email) w.subscriptions
    elim found [
      | none ↦ pure false
      | some s ↦ do
        save_subscription (record s { active_status = SubscriptionActiveStatus.active })
        modify λ w. record w {
          subscription_payments =
              orm.save SubscriptionPayment (λ x. x.id)
                (record {
                  id = orm.generate SubscriptionPayment (λ x. x.id) w.subscription_payments;
                  subscription_id = s.id;
                  kobo = d.amount;
                  paystack_reference = d.reference;
                  paid_on = d.paid_at;
                })
                w.subscription_payments;
        }
        pure true
    ]

  -- `transaction && dto.data.reference`
  unfoldable pub update_payment_found : PaystackData → Option Payment → Option ℕ → Handler Bool
  update_payment_found d (some p) (some ref) = settle_payment d.status_success p ref
  update_payment_found d (some p) none = pay_subscription d
  update_payment_found d none ref = pay_subscription d

  unfoldable pub update_payment : PaystackData → Handler Bool
  unfolding update_payment_found
  update_payment d = do
    t ← gets (get_payment_by_reference d.reference)
    update_payment_found d t d.reference

  -- `verifyTransaction`: `provider` gives the status and the reference of Paystack's answer.
  -- What is kept of each credit for saving is the status that was assigned, not the credit.
  unfoldable pub verify_transaction : (Option ℕ → Option (Bool × ℕ)) → ℕ → Handler (Option Payment)
  verify_transaction provider ref = do
    t ← gets (get_payment_by_reference (some ref))
    elim t [
      | none ↦ pure none
      | some p ↦ do
        (success, answered) ← or_throw (provider p.paystack_reference) Exception.provider_error
        found ← gets (get_referal_by_user_reference (some answered))
        credits ← gets (get_sojourn_credits_by_reference (some answered))
        referal ← deref found
        save_payment (record p { payment_status = payment_status_of success })
        save_referal (some (record referal { paystack_status = referal_status_of success }))
        throw_if (orm.requires_entity && not (is_empty credits)) Exception.must_be_entity
        pure (some (record p { payment_status = payment_status_of success }))
    ]

  -- `verifyCryptoTransaction`: whether the status is 'finished'
  unfoldable pub verify_crypto_transaction : ℕ → Handler Bool
  verify_crypto_transaction ref = do
    p ← deref (← gets (get_payment_by_reference (some ref)))
    when (is_completed p.payment_status) (do
      save_payment (record p { payment_status = PaymentStatus.completed })
      emit_confirmation p)
    pure (is_completed p.payment_status)
