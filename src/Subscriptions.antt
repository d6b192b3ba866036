-- ===== src/Subscriptions.antt =====
-- Starting and cancelling a subscription: `initializaSubscription` of
-- src/payments/payments.service.ts and src/subscriptions/subscriptions.service.ts, with
-- src/repositories/subscription.repository.ts. Paystack is a function for each request, which
-- gives `none` when the request fails.
use sojourn_backend.Prelude.{
  ℕ, ◌≡◌, ◌≢◌, refl, Bool, true, false, not, ◌&&◌, Option, none, some, ◌==◌, ◌⊎◌, inl, inr,
  Option-cases, Bool-cases, arith,
}
use sojourn_backend.Entities.{Subscription, SubscriptionActiveStatus, Host}
use sojourn_backend.Orm.{Orm}
use sojourn_backend.App.{
  World, Handler, ok, Exception, ◌>>=◌, ◌>>◌, pure, gets, or_throw, deref, throw_if,
}
use sojourn_backend.Checkout.Initialize.{PaystackReply}
use sojourn_backend.Webhook.Confirm.{save_subscription}

-- `InitializeSubscription`
pub record InitializeSubscription : Type 0 where
  pub host_id : ℕ
  pub plan_id : ℕ
  pub plan_name : ℕ
  pub amount : ℕ

-- What Paystack answers to the requests on a subscription code: the status and the e-mail token,
-- and the status of a cancellation.
pub record PaystackSubscriptions : Type 0 where
  pub fetch : ℕ → Option (Bool × Option ℕ)
  pub disable : ℕ → ℕ → Option Bool

abbrev is_active : SubscriptionActiveStatus → Bool
is_active SubscriptionActiveStatus.active = true
is_active SubscriptionActiveStatus.not_active = false

module _ (orm : Orm) where
  -- The subscription of a host, if it is active
  unfoldable pub get_subscription_by_host_id : ℕ → World → Option Subscription
  get_subscription_by_host_id host w =
      orm.find_one Subscription (λ s. (s.host_id == host) && is_active s.active_status)
        w.subscriptions

  unfoldable pub subscription_row : InitializeSubscription → Host → ℕ → ℕ → Subscription
  subscription_row dto host reference i = record {
    id = i;
    host_id = host.id;
    plan_id = dto.plan_id;
    plan_name = dto.plan_name;
    active_status = SubscriptionActiveStatus.not_active;
    next_payment_date = none;
    initial_payment_reference = reference;
    email_token = none;
    customer_id = none;
    customer_email = host.email;
    customer_code = none;
    subscription_code = none;
    authorization_code = none;
  }

  -- The row that is saved: a new one, or the active one of the host with the new plan.
  unfoldable pub started :
      InitializeSubscription → Host → ℕ → Option Subscription → ℕ → Subscription
  unfolding subscription_row
  started dto host reference none i = subscription_row dto host reference i
  started dto host reference (some s) i = record s {
    active_status = SubscriptionActiveStatus.not_active;
    plan_id = dto.plan_id;
    plan_name = dto.plan_name;
    initial_payment_reference = reference;
  }

  -- The access code that is answered with the host is left out.
  unfoldable pub initialize_subscription :
      (ℕ → ℕ → ℕ → Option PaystackReply) → InitializeSubscription → Handler ℕ
  unfolding get_subscription_by_host_id started
  initialize_subscription paystack dto = do
    found ← gets λ w. orm.find_one Host (λ h. h.id == dto.host_id) w.hosts
    existing ← gets (get_subscription_by_host_id dto.host_id)
    host ← or_throw found Exception.host_not_found
    reply ← or_throw (paystack host.email dto.plan_id dto.amount) Exception.provider_error
    throw_if (not reply.status) Exception.provider_refused
    i ← gets λ w. orm.generate Subscription (λ s. s.id) w.subscriptions
    save_subscription orm (started dto host reply.reference existing i)
    pure host.id

  -- `getSubscriptionFromPaystack`, and the private `cancelSubscription`
  unfoldable pub get_subscription_from_paystack :
      PaystackSubscriptions → Option ℕ → Handler (Option ℕ)
  get_subscription_from_paystack provider code = do
    c ← or_throw code Exception.missing_fields
    (status, token) ← or_throw (provider.fetch c) Exception.provider_error
    throw_if (not status) Exception.provider_refused
    pure token

  unfoldable pub cancel_subscription :
      PaystackSubscriptions → Option ℕ → Option ℕ → Handler (Unit {0})
  cancel_subscription provider code token = do
    c ← or_throw code Exception.missing_fields
    t ← or_throw token Exception.missing_fields
    status ← or_throw (provider.disable c t) Exception.provider_error
    throw_if (not status) Exception.provider_refused

  -- Without a subscription the code reads the status of `null`. Whatever is thrown is caught and
  -- thrown on as a bad request with the same message.
  unfoldable pub cancel_subscription_by_host_id : PaystackSubscriptions → ℕ → Handler (Unit {0})
  unfolding get_subscription_by_host_id get_subscription_from_paystack cancel_subscription
  cancel_subscription_by_host_id provider host = do
    s ← deref (← gets (get_subscription_by_host_id host))
    token ← get_subscription_from_paystack provider s.subscription_code
    cancel_subscription provider s.subscription_code token
    save_subscription orm (record s { active_status = SubscriptionActiveStatus.not_active })

  -- The cancelling of a subscription either fails and has changed nothing, or the host had an
  -- active subscription with a code, Paystack has disabled it by that code and its token, and it
  -- is saved as not active.
  pub cancel_subscription_outcome :
      (provider : PaystackSubscriptions) (host : ℕ) (w : World)
      → let (r, w') = cancel_subscription_by_host_id provider host w in
        ((r ≢ ok tt) × (w' ≡ w))
        ⊎ ((s : Subscription) × (code : ℕ) × (token : ℕ) × (r ≡ ok tt)
            × (get_subscription_by_host_id host w ≡ some s)
            × (s.subscription_code ≡ some code)
            × (provider.fetch code ≡ some (true, some token))
            × (provider.disable code token ≡ some true)
            × (w'.subscriptions
                ≡ orm.save Subscription
                    (λ x. x.id)
                    (record s { active_status = SubscriptionActiveStatus.not_active })
                    w.subscriptions))
  unfolding cancel_subscription_by_host_id get_subscription_from_paystack cancel_subscription
      save_subscription
  cancel_subscription_outcome provider host w =
      elim (Option-cases (get_subscription_by_host_id host w)) [
        | inl none_active ↦ inl (ground arith, ground arith)
        | inr (s, es) ↦ elim (Option-cases s.subscription_code) [
          | inl no_code ↦ inl (ground arith, ground arith)
          | inr (code, ec) ↦ elim (Option-cases (provider.fetch code)) [
            | inl failed ↦ inl (ground arith, ground arith)
            | inr ((status, token), ef) ↦ elim (Bool-cases status) [
              | inr refused ↦ inl (ground arith, ground arith)
              | inl good ↦ elim (Option-cases token) [
                | inl no_token ↦ inl (ground arith, ground arith)
                | inr (t, et) ↦ elim (Option-cases (provider.disable code t)) [
                  | inl failed ↦ inl (ground arith, ground arith)
                  | inr (done, ed) ↦ elim (Bool-cases done) [
                    | inr refused ↦ inl (ground arith, ground arith)
                    | inl disabled ↦
                        inr (
                          s,
                          code,
                          t,
                          ground arith,
                          es,
                          ec,
                          ground arith,
                          ground arith,
                          ground arith,
                        )
                  ]
                ]
              ]
            ]
          ]
        ]
      ]

  -- The start of a subscription either fails and has changed nothing, or Paystack has accepted the
  -- plan for the address of the host, and one row with the plan and the reference is saved, which
  -- is not active.
  pub initialize_subscription_outcome :
      (paystack : ℕ → ℕ → ℕ → Option PaystackReply) (dto : InitializeSubscription) (w : World)
      → let (r, w') = initialize_subscription paystack dto w in
        ((w' ≡ w) × ((i : ℕ) → r ≢ ok i))
        ⊎ ((host : Host) × (reply : PaystackReply) × (s : Subscription) × (r ≡ ok host.id)
            × (orm.find_one Host (λ h. h.id == dto.host_id) w.hosts ≡ some host)
            × (paystack host.email dto.plan_id dto.amount ≡ some reply)
            × (reply.status ≡ true)
            × (w'.subscriptions ≡ orm.save Subscription (λ x. x.id) s w.subscriptions)
            × (s.plan_id ≡ dto.plan_id)
            × (s.initial_payment_reference ≡ reply.reference)
            × (s.active_status ≡ SubscriptionActiveStatus.not_active))
  unfolding initialize_subscription started save_subscription
  initialize_subscription_outcome paystack dto w =
      elim (Option-cases (orm.find_one Host (λ h. h.id == dto.host_id) w.hosts)) [
        | inl no_host ↦ inl (ground arith, λ i. ground arith)
        | inr (host, eh) ↦ elim (Option-cases (paystack host.email dto.plan_id dto.amount)) [
          | inl failed ↦ inl (ground arith, λ i. ground arith)
          | inr (reply, er) ↦ elim (Bool-cases reply.status) [
            | inr refused ↦ inl (ground arith, λ i. ground arith)
            | inl good ↦ elim (Option-cases (get_subscription_by_host_id dto.host_id w)) [
              | inl fresh ↦ inr (
                host,
                reply,
                started dto host reply.reference none
                    (orm.generate Subscription (λ s. s.id) w.subscriptions),
                ground arith,
                eh,
                er,
                good,
                ground arith,
                refl,
                refl,
                refl,
              )
              | inr (s, es) ↦ inr (
                host,
                reply,
                started dto host reply.reference (some s)
                    (orm.generate Subscription (λ s. s.id) w.subscriptions),
                ground arith,
                eh,
                er,
                good,
                ground arith,
                refl,
                refl,
                refl,
              )
            ]
          ]
        ]
      ]
