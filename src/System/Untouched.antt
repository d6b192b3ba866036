-- ===== src/System/Untouched.antt =====
-- What leaves the table of bookings as it is, and what a transaction does with it.
use sojourn_backend.Prelude.{
  ℕ, ◌≡◌, refl, ◌∙◌, Bool, true, Option, none, some, List, All-every, Option-cases, inl, inr, arith,
}
use sojourn_backend.Entities.{Booking, Payment}
use sojourn_backend.Orm.{Orm}
use sojourn_backend.App.{World, Handler, promise_all, all_settled}
use sojourn_backend.App.Transaction.{intercept, intercept-either}
use sojourn_backend.Webhook.Message.{
  PaystackEvent, PaystackData, WebhookDto, subscription_create, charge_success, invoice_create,
  invoice_update, invoice_payment_failed, subscription_not_renew, subscription_disable, other_event,
}
use sojourn_backend.Webhook.Dispatch.{dispatch, handle_paystack_webhook}
use sojourn_backend.Webhook.Confirm.{
  settle_payment, emit_confirmation, save_payment, save_referal, save_credits, update_payment,
  update_payment_found, pay_subscription, save_subscription, verify_transaction,
  verify_crypto_transaction, booking_of,
}
use sojourn_backend.Webhook.Subscriptions.{
  subscription_not_renewing, subscription_invoice_payment_failed, subscription_invoice_created,
  cancelled_subscription, invoice_updated, update_subscription,
}
use sojourn_backend.Checkout.Initialize.{get_host_wallet_by_host_id}
use sojourn_backend.Wallet.Withdraw.{WithdrawDto, withdraw, record_withdrawal}
use sojourn_backend.Wallet.Credits.{TransferDto, transfer_sojourn_credits, add_sojourn_credits}
use sojourn_backend.Referals.Requests.{
  AddWithdrawalRequest, add_withdrawal_request, ensure_account, add_referal,
}
use sojourn_backend.Tasks.PaymentJobs.{
  confirm_crypto, handle_update_crypto_payments_to_paid, pay_referal, confirm_credit,
  handle_update_payments, fulfilled,
}
use sojourn_backend.Tasks.Confirmed.{promise_all_keeps}

-- What holds of the bookings before a handler and after it, holds after its transaction.
pub intercept-keeps :
    {A : Type 0} (P : List Booking → Type 0) (next : Handler A) (w : World)
    → P w.bookings
    → P (next w).1.bookings
    → P (intercept next w).1.bookings
intercept-keeps P next w h k = intercept-either (λ v. P v.bookings) next w h k

-- A handler that leaves the table as it is.
abbrev pub Spares : {A : Type 0} → Handler A → Type 0
Spares m = (w : World) → (m w).1.bookings ≡ w.bookings

pub intercept-Spares : {A : Type 0} (m : Handler A) → Spares m → Spares (intercept m)
intercept-Spares m h w = intercept-keeps (λ t. t ≡ w.bookings) m w refl (h w)

promise_all-Spares :
    {A : Type 0} (xs : List A) (f : A → Handler (Unit {0}))
    → ((x : A) → Spares (f x))
    → Spares (promise_all xs f)
promise_all-Spares xs f h w =
    promise_all_keeps (λ v. v.bookings ≡ w.bookings) (λ _. Unit {0}) xs f w (λ x v _ e. h x v ∙ e)
      (All-every _ (λ _. tt) xs) refl

module _ (orm : Orm) where
  settle_payment-Spares :
      (success : Bool) (p : Payment) (ref : ℕ) → Spares (settle_payment orm success p ref)
  unfolding settle_payment emit_confirmation save_payment save_referal save_credits
  settle_payment-Spares success p ref w = ground arith

  pay_subscription-Spares : (d : PaystackData) → Spares (pay_subscription orm d)
  unfolding pay_subscription save_subscription
  pay_subscription-Spares d w = ground arith

  update_payment_found-Spares :
      (d : PaystackData) (t : Option Payment) (ref : Option ℕ)
      → Spares (update_payment_found orm d t ref)
  unfolding update_payment_found
  update_payment_found-Spares d (some p) (some ref) w =
      settle_payment-Spares d.status_success p ref w
  update_payment_found-Spares d (some p) none w = pay_subscription-Spares d w
  update_payment_found-Spares d none ref w = pay_subscription-Spares d w

  pub update_payment-Spares : (d : PaystackData) → Spares (update_payment orm d)
  unfolding update_payment
  update_payment-Spares d w = update_payment_found-Spares d _ d.reference w

  dispatch-Spares : (e : PaystackEvent) (d : PaystackData) → Spares (dispatch orm e d)
  unfolding dispatch subscription_not_renewing subscription_invoice_payment_failed
      subscription_invoice_created cancelled_subscription invoice_updated update_subscription
      save_subscription
  dispatch-Spares subscription_create d w = ground arith
  dispatch-Spares charge_success d w = update_payment-Spares d w
  dispatch-Spares invoice_create d w = ground arith
  dispatch-Spares invoice_update d w = ground arith
  dispatch-Spares invoice_payment_failed d w = ground arith
  dispatch-Spares subscription_not_renew d w = ground arith
  dispatch-Spares subscription_disable d w = ground arith
  dispatch-Spares other_event d w = refl

  pub webhook-Spares :
      (digest : WebhookDto → List ℕ) (dto : WebhookDto) (signature : List ℕ)
      → Spares (handle_paystack_webhook orm digest dto signature)
  unfolding handle_paystack_webhook
  webhook-Spares digest dto signature w = elim (Option-cases dto.payload) [
    | inl e ↦ ground arith
    | inr (d, e) ↦ let same = dispatch-Spares dto.event d w in ground arith
  ]

  pub verify_transaction-Spares :
      (provider : Option ℕ → Option (Bool × ℕ)) (ref : ℕ)
      → Spares (verify_transaction orm provider ref)
  unfolding verify_transaction save_payment save_referal
  verify_transaction-Spares provider ref w = ground arith

  pub verify_crypto-Spares : (ref : ℕ) → Spares (verify_crypto_transaction orm ref)
  unfolding verify_crypto_transaction save_payment emit_confirmation
  verify_crypto-Spares ref w = ground arith

  pub withdraw-Spares : (now : ℕ) (dto : WithdrawDto) → Spares (withdraw orm now dto)
  unfolding withdraw get_host_wallet_by_host_id record_withdrawal
  withdraw-Spares now dto w = ground arith

  pub transfer-Spares : (dto : TransferDto) → Spares (transfer_sojourn_credits orm dto)
  unfolding transfer_sojourn_credits add_sojourn_credits
  transfer-Spares dto w = ground arith

  pub referal_withdrawal-Spares :
      (dto : AddWithdrawalRequest) → Spares (add_withdrawal_request orm dto)
  unfolding add_withdrawal_request ensure_account add_referal
  referal_withdrawal-Spares dto w = ground arith

  confirm_crypto-Spares :
      (provider : Option ℕ → Option Bool) (booking : Option Booking) (t : Payment)
      → Spares (confirm_crypto orm provider booking t)
  unfolding confirm_crypto save_payment
  confirm_crypto-Spares provider booking t w = ground arith

  pub update_crypto_payments-Spares :
      (provider : Option ℕ → Option Bool)
      → Spares (handle_update_crypto_payments_to_paid orm provider)
  unfolding handle_update_crypto_payments_to_paid
  update_crypto_payments-Spares provider w =
      promise_all-Spares _ (λ t. confirm_crypto orm provider (booking_of orm w t) t)
        (λ t. confirm_crypto-Spares provider (booking_of orm w t) t) w

  pay_referal-Spares : (t : Payment) → Spares (pay_referal orm t)
  unfolding pay_referal save_referal
  pay_referal-Spares t w = ground arith

  confirm_credit-Spares : (t : Payment) → Spares (confirm_credit orm t)
  unfolding confirm_credit
  confirm_credit-Spares t w = ground arith

  pub update_payments-Spares : Spares (handle_update_payments orm)
  unfolding handle_update_payments all_settled
  update_payments-Spares w =
      let ts = fulfilled (orm.find Payment (λ p. true) w.payments) in
      promise_all-Spares ts (confirm_credit orm) confirm_credit-Spares
        (promise_all ts (pay_referal orm) w).1
      ∙ promise_all-Spares ts (pay_referal orm) pay_referal-Spares w
