-- ===== src/Webhook/Dispatch.antt =====
-- `handlePaystackSubscriptionsWebhook` of src/payments/payments.service.ts. The digest that the
-- secret key gives of a body is a parameter; a digest and a signature are lists of bytes.
use sojourn_backend.Prelude.{
  ℕ, Bool, true, false, not, ◌&&◌, none, some, List, [], ◌∷◌, length, ◌==◌, if◌then◌else◌,
}
use sojourn_backend.Orm.{Orm}
use sojourn_backend.App.{Handler, Exception, ◌>>◌, pure, throw_if}
use sojourn_backend.Webhook.Message.{
  PaystackEvent, PaystackData, WebhookDto, subscription_create, charge_success, invoice_create,
  invoice_update, invoice_payment_failed, subscription_not_renew, subscription_disable, other_event,
}
use sojourn_backend.Webhook.Confirm.{update_payment}
use sojourn_backend.Webhook.Subscriptions.{
  subscription_not_renewing, subscription_invoice_payment_failed, subscription_invoice_created,
  cancelled_subscription, invoice_updated, update_subscription,
}

-- The comparison that `timingSafeEqual` makes of two buffers of one length.
unfoldable pub same_bytes : List ℕ → List ℕ → Bool
same_bytes [] [] = true
same_bytes [] (y ∷ ys) = false
same_bytes (x ∷ xs) [] = false
same_bytes (x ∷ xs) (y ∷ ys) = (x == y) && same_bytes xs ys

module _ (orm : Orm) where
  -- The `switch` on the event. `invoice.create` has no `break`, so the handler of
  -- `invoice.update` runs after its own and gives the flag.
  unfoldable pub dispatch : PaystackEvent → PaystackData → Handler Bool
  dispatch subscription_create d = update_subscription orm d
  dispatch charge_success d = update_payment orm d
  dispatch invoice_create d = do subscription_invoice_created orm d; invoice_updated orm d
  dispatch invoice_update d = invoice_updated orm d
  dispatch invoice_payment_failed d = subscription_invoice_payment_failed orm d
  dispatch subscription_not_renew d = subscription_not_renewing orm d
  dispatch subscription_disable d = cancelled_subscription orm d
  dispatch other_event d = pure false

  -- The body without `data` is passed over; buffers of two lengths make `timingSafeEqual` throw,
  -- which is caught and thrown on as an internal error.
  unfoldable pub handle_paystack_webhook :
      (WebhookDto → List ℕ) → WebhookDto → List ℕ → Handler Bool
  handle_paystack_webhook digest dto signature = elim dto.payload [
    | none ↦ pure false
    | some d ↦ do
      throw_if (not (length (digest dto) == length signature)) Exception.internal
      if same_bytes (digest dto) signature then dispatch dto.event d else pure false
  ]
