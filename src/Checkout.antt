-- ===== src/Checkout.antt =====
-- Paying for a stay: `initializeTransaction` and `initializeCryptoTransaction` of
-- src/payments/payments.service.ts.
pub mod Pricing
pub mod Validation
pub mod Initialize
pub mod Crypto
pub mod Recorded
pub mod Ends
pub mod Kept
