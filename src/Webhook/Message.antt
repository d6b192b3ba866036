-- ===== src/Webhook/Message.antt =====
-- The body of the webhook: `PaystackWebhookDto` and `Data` of src/payments/types.ts, with the
-- fields that the handlers read.
use sojourn_backend.Prelude.{ℕ, Bool, Option}

pub data PaystackEvent : Type 0 where
  subscription_create charge_success invoice_create invoice_update : PaystackEvent
  invoice_payment_failed subscription_not_renew subscription_disable : PaystackEvent
  other_event : PaystackEvent

pub record SubscriptionData : Type 0 where
  pub email_token : ℕ
  pub next_payment_date : ℕ

pub record PaystackData : Type 0 where
  -- whether `status` is the text 'success'
  pub status_success : Bool
  pub paid : Bool
  pub reference : Option ℕ
  pub amount : ℕ
  pub paid_at : ℕ
  pub subscription_code : ℕ
  pub subscription : Option SubscriptionData
  pub next_payment_date : ℕ
  pub customer_id : ℕ
  pub customer_email : ℕ
  pub customer_code : ℕ
  pub authorization_code : ℕ

pub record WebhookDto : Type 0 where
  pub event : PaystackEvent
  pub payload : Option PaystackData
