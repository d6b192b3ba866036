-- ===== src/Webhook/Subscriptions.antt =====
-- The handlers of the subscription events, in src/payments/payments.service.ts.
use sojourn_backend.Prelude.{
  ℕ, Bool, true, false, ◌&&◌, Option, none, some, holds, ◌==◌, if◌then◌else◌,
}
use sojourn_backend.Entities.{Subscription, SubscriptionActiveStatus}
use sojourn_backend.Orm.{Orm}
use sojourn_backend.App.{World, Handler, Event, ◌>>=◌, ◌>>◌, pure, gets, deref, emit}
use sojourn_backend.Webhook.Message.{PaystackData}
use sojourn_backend.Webhook.Confirm.{save_subscription}

module _ (orm : Orm) where
  unfoldable pub get_subscription_by_customer_email : ℕ → World → Option Subscription
  get_subscription_by_customer_email email w =
      orm.find_one Subscription (λ s. s.customer_email == email) w.subscriptions

  unfoldable pub get_subscription_by_customer_id : ℕ → World → Option Subscription
  get_subscription_by_customer_id i w =
      orm.find_one Subscription (λ s. holds s.customer_id i) w.subscriptions

  unfoldable pub subscription_not_renewing : PaystackData → Handler Bool
  subscription_not_renewing d = do
    found ← gets (get_subscription_by_customer_email d.customer_email)
    elim found [
      | none ↦ pure false
      | some s ↦ do emit (Event.subscription_not_renewing s.customer_email); pure true
    ]

  unfoldable pub subscription_invoice_payment_failed : PaystackData → Handler Bool
  subscription_invoice_payment_failed d = do
    found ← gets (get_subscription_by_customer_email d.customer_email)
    elim found [
      | none ↦ pure false
      | some s ↦ do emit (Event.subscription_charge_failed s.customer_email); pure true
    ]

  unfoldable pub subscription_invoice_created : PaystackData → Handler Bool
  subscription_invoice_created d = do
    found ← gets (get_subscription_by_customer_email d.customer_email)
    elim found [
      | none ↦ pure false
      | some s ↦ do
        x ← deref d.subscription
        save_subscription orm (record s {
          active_status = SubscriptionActiveStatus.active;
          email_token = some x.email_token;
          next_payment_date = some x.next_payment_date;
        })
        emit (Event.subscription_invoice_created s.customer_email x.next_payment_date)
        pure true
    ]

  unfoldable pub cancelled_subscription : PaystackData → Handler Bool
  cancelled_subscription d = do
    found ← gets (get_subscription_by_customer_id d.customer_id)
    elim found [
      | none ↦ pure false
      | some s ↦ do
        save_subscription orm (record s { active_status = SubscriptionActiveStatus.not_active })
        pure true
    ]

  -- `result = false;` stands after the inner `if`, so the result is false whatever was done.
  unfoldable pub invoice_updated : PaystackData → Handler Bool
  invoice_updated d =
      if d.status_success && d.paid
      then (do
        found ← gets (get_subscription_by_customer_email d.customer_email)
        elim found [
          | none ↦ pure false
          | some s ↦ do
            x ← deref d.subscription
            save_subscription orm (record s {
              active_status = SubscriptionActiveStatus.active;
              next_payment_date = some x.next_payment_date;
            })
            pure false
        ])
      else pure false

  unfoldable pub update_subscription : PaystackData → Handler Bool
  update_subscription d = do
    found ← gets (get_subscription_by_customer_email d.customer_email)
    elim found [
      | none ↦ pure false
      | some s ↦ do
        save_subscription orm (record s {
          authorization_code = some d.authorization_code;
          subscription_code = some d.subscription_code;
          customer_id = some d.customer_id;
          customer_code = some d.customer_code;
          next_payment_date = some d.next_payment_date;
          active_status = SubscriptionActiveStatus.active;
        })
        pure true
    ]
