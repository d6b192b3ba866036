-- ===== src/Webhook.antt =====
-- Payments confirmed: the Paystack webhook and the two verifications of
-- src/payments/payments.service.ts.
pub mod Message
pub mod Confirm
pub mod Subscriptions
pub mod Dispatch
pub mod Signed
pub mod Settled
