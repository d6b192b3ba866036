-- ===== src/Tasks/PaymentJobs.antt =====
-- The jobs on payments, `handleUpdateCryptoPaymentsToPaid` and `handleUpdatePayments` of
-- src/tasks/tasks.service.ts.
use sojourn_backend.Prelude.{
  ℕ, Bool, true, not, ◌&&◌, Option, none, some, List, [], ◌∷◌, is_set, if◌then◌else◌,
}
use sojourn_backend.Entities.{
  Booking, Payment, PaymentStatus, ReferalStatus, SojournCredit, SojournCreditsStatus, is_completed,
  is_confirmed, is_crypto,
}
use sojourn_backend.Orm.{Orm, where_eq}
use sojourn_backend.App.{
  World, Handler, ok, Exception, ◌>>=◌, gets, deref, or_throw, when, promise_all, all_settled,
  set_credits,
}
use sojourn_backend.Webhook.Confirm.{
  get_payment_by_reference, booking_of, save_payment, save_referal, get_referal_by_user_reference,
}

module _ (orm : Orm) where
  -- The callback on one payment, whose booking was loaded with it. `provider` says whether the
  -- status that NowPayments gives for a reference is 'finished'; `none` is a failed request.
  unfoldable pub confirm_crypto :
      (Option ℕ → Option Bool) → Option Booking → Payment → Handler (Unit {0})
  confirm_crypto provider booking t =
      when (is_crypto t.payment_method && not (is_completed t.payment_status)) (do
        b ← deref booking
        when (is_set b.holding_window) (do
          finished ← or_throw (provider t.paystack_reference) Exception.provider_error
          when finished (do
            p ← deref (← gets (get_payment_by_reference orm t.paystack_reference))
            save_payment orm (record p { payment_status = PaymentStatus.completed }))))

  unfoldable pub handle_update_crypto_payments_to_paid :
      (Option ℕ → Option Bool) → Handler (Unit {0})
  unfolding confirm_crypto
  handle_update_crypto_payments_to_paid provider w =
      promise_all (orm.find Payment (λ p. true) w.payments)
        (λ t. confirm_crypto provider (booking_of orm w t) t) w

-- `transactions.filter((t) => t.paymentStatus === COMPLETED)`
unfoldable pub fulfilled : List Payment → List Payment
fulfilled [] = []
fulfilled (t ∷ ts) =
    let rest = fulfilled ts in if is_completed t.payment_status then t ∷ rest else rest

module _ (orm : Orm) where
  -- The two callbacks of `handleUpdatePayments`.
  unfoldable pub pay_referal : Payment → Handler (Unit {0})
  pay_referal t = do
    r ← deref (← gets (get_referal_by_user_reference orm t.paystack_reference))
    save_referal orm (some (record r { paystack_status = ReferalStatus.paid }))

  -- The first pending credit with the reference, of `StaticSojournCreditsRepository`
  unfoldable pub get_single_sojourn_credit_by_reference : Option ℕ → World → Option SojournCredit
  get_single_sojourn_credit_by_reference ref w =
      orm.find_one SojournCredit
        (λ c. where_eq orm (some c.reference) ref && not (is_confirmed c.status)) w.credits

  unfoldable pub confirm_credit : Payment → Handler (Unit {0})
  unfolding get_single_sojourn_credit_by_reference
  confirm_credit t w = elim (get_single_sojourn_credit_by_reference t.paystack_reference w) [
    | none ↦ (ok tt, w)
    | some c ↦ (
      ok tt,
      set_credits
          (orm.save SojournCredit (λ x. x.id) (record c { status = SojournCreditsStatus.confirmed })
            w.credits)
          w,
    )
  ]

  unfoldable pub handle_update_payments : Handler (Unit {0})
  unfolding pay_referal confirm_credit fulfilled all_settled
  handle_update_payments w =
      let ts = fulfilled (orm.find Payment (λ p. true) w.payments) in
      let w' = (all_settled ts pay_referal w).1 in all_settled ts confirm_credit w'
