-- ===== src/System/Requests.antt =====
-- The application as a whole: what reaches it and writes to the database, one after the other.
-- The handlers of src/payments/payments.controller.ts, src/wallet/wallet.controller.ts,
-- src/bookings/bookings.controller.ts and src/referals/referals.controller.ts, each inside the
-- transaction where the controller asks for it, and the scheduled jobs of
-- src/tasks/tasks.service.ts, which run outside.
use sojourn_backend.Prelude.{ℕ, ℤ, Bool, Option, List, [], ◌∷◌, ◌≤◌}
use sojourn_backend.Orm.{Orm}
use sojourn_backend.App.{World}
use sojourn_backend.App.Transaction.{intercept}
use sojourn_backend.Checkout.Validation.{CheckoutDto}
use sojourn_backend.Checkout.Initialize.{PaystackReply, initialize_transaction}
use sojourn_backend.Checkout.Crypto.{NowPayments, initialize_crypto_transaction}
use sojourn_backend.Booking.Cancellation.{cancel_booking}
use sojourn_backend.Webhook.Message.{WebhookDto}
use sojourn_backend.Webhook.Dispatch.{handle_paystack_webhook}
use sojourn_backend.Webhook.Confirm.{verify_transaction, verify_crypto_transaction}
use sojourn_backend.Wallet.Withdraw.{WithdrawDto, withdraw}
use sojourn_backend.Wallet.Credits.{TransferDto, transfer_sojourn_credits}
use sojourn_backend.Referals.Requests.{AddWithdrawalRequest, add_withdrawal_request}
use sojourn_backend.Tasks.BookingJobs.{
  handle_bookings_in_progress, handle_finished_bookings, handle_cancel_bookings,
  handle_cancel_crypto_bookings,
}
use sojourn_backend.Tasks.PaymentJobs.{
  handle_update_crypto_payments_to_paid, handle_update_payments,
}

-- A request, with what the providers answer to the handler, or the run of a job.
pub data Request : Type 0 where
  checkout : (ℤ → Option PaystackReply) → CheckoutDto → Request
  crypto_checkout : NowPayments → CheckoutDto → Request
  cancellation : ℕ → Request
  verification : (Option ℕ → Option (Bool × ℕ)) → ℕ → Request
  crypto_verification : ℕ → Request
  webhook : (WebhookDto → List ℕ) → WebhookDto → List ℕ → Request
  withdrawal : WithdrawDto → Request
  credit_transfer : TransferDto → Request
  referal_withdrawal : AddWithdrawalRequest → Request
  bookings_in_progress finished_bookings cancel_bookings cancel_crypto_bookings : Request
  update_crypto_payments : (Option ℕ → Option Bool) → Request
  update_payments : Request

module _ (orm : Orm) (brackets : Bool) where
  -- What a request that is served at a time leaves behind.
  unfoldable pub serve : ℕ → Request → World → World
  serve now (checkout paystack dto) w =
      (intercept (initialize_transaction orm paystack brackets now dto) w).1
  serve now (crypto_checkout provider dto) w =
      (intercept (initialize_crypto_transaction orm provider brackets now dto) w).1
  serve now (cancellation i) w = (intercept (cancel_booking orm i) w).1
  serve now (verification provider ref) w = (intercept (verify_transaction orm provider ref) w).1
  serve now (crypto_verification ref) w = (intercept (verify_crypto_transaction orm ref) w).1
  serve now (webhook digest dto signature) w =
      (intercept (handle_paystack_webhook orm digest dto signature) w).1
  serve now (withdrawal dto) w = (intercept (withdraw orm now dto) w).1
  serve now (credit_transfer dto) w = (transfer_sojourn_credits orm dto w).1
  serve now (referal_withdrawal dto) w = (intercept (add_withdrawal_request orm dto) w).1
  serve now bookings_in_progress w = (handle_bookings_in_progress orm now w).1
  serve now finished_bookings w = (handle_finished_bookings orm now w).1
  serve now cancel_bookings w = (handle_cancel_bookings orm now w).1
  serve now cancel_crypto_bookings w = (handle_cancel_crypto_bookings orm now w).1
  serve now (update_crypto_payments provider) w =
      (handle_update_crypto_payments_to_paid orm provider w).1
  serve now update_payments w = (handle_update_payments orm w).1

  -- A history: requests with the times at which they are served.
  unfoldable pub serve_all : List (ℕ × Request) → World → World
  unfolding serve
  serve_all [] w = w
  serve_all ((now, r) ∷ rs) w = serve_all rs (serve now r w)

-- Time does not run backwards in a history that begins at a time.
abbrev pub RunsForward : ℕ → List (ℕ × Request) → Type 0
RunsForward start [] = Unit
RunsForward start ((now, r) ∷ rs) = (start ≤ now) × RunsForward now rs

-- The time at which a history that begins at a time is over.
abbrev pub end_of : ℕ → List (ℕ × Request) → ℕ
end_of start [] = start
end_of start ((now, r) ∷ rs) = end_of now rs
