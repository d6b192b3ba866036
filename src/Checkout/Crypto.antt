-- ===== src/Checkout/Crypto.antt =====
-- `initializeCryptoTransaction` of src/payments/payments.service.ts. NowPayments is a record of
-- functions, each of which gives the answer to a request, or `none` when the request fails.
use sojourn_backend.Prelude.{ℕ, ℤ, pos, ltb, ltb_ℤ, Bool, true, false, not, ◌&&◌, Option, some}
use sojourn_backend.Entities.{PaymentMethod, Property, User, Host}
use sojourn_backend.Orm.{Orm}
use sojourn_backend.App.{Handler, Exception, ◌>>=◌, ◌>>◌, pure, gets, deref, or_throw, throw_if}
use sojourn_backend.Checkout.Pricing.{amount_due}
use sojourn_backend.Checkout.Validation.{CheckoutDto, validate_checkout}
use sojourn_backend.Checkout.Initialize.{Sale, record_sale, price_stay}

-- `CryptoPaymentStatus`
pub data CryptoPaymentStatus : Type 0 where
  waiting failed confirming confirmed sending partially_paid finished expired : CryptoPaymentStatus

pub record CryptoReply : Type 0 where
  pub payment_status : CryptoPaymentStatus
  pub payment_id : ℕ
  pub pay_address : ℕ
  pub pay_amount : ℕ

-- A sale that is paid through NowPayments.
unfoldable pub crypto_sale : Property → User → Host → ℕ → ℤ → CryptoReply → Sale
crypto_sale property guest host base applied reply = record {
  property = property;
  guest = guest;
  owner_id = host.id;
  base = base;
  applied = applied;
  paid_by = PaymentMethod.crypto;
  payment_reference = reply.payment_id;
  crypto_address = some reply.pay_address;
  crypto_amount = reply.pay_amount;
}

-- The requests to NowPayments. The amount in dollars is the quotient of the sum in naira and the
-- rate, which are handed over as they are; amounts in the currency are in a unit of its own.
pub record NowPayments : Type 0 where
  -- whether `usdttrc20` is among the currencies
  pub currency_available : Option Bool
  pub minimum_amount : Option ℕ
  pub estimated_amount : ℤ → ℕ → Option ℕ
  pub create_payment : ℤ → ℕ → Option CryptoReply

abbrev is_failed : CryptoPaymentStatus → Bool
is_failed failed = true
is_failed _ = false

abbrev is_waiting : CryptoPaymentStatus → Bool
is_waiting waiting = true
is_waiting _ = false

-- `!fiatAmount`, on which `getNowPaymentsEstimatedPrice` throws
abbrev is_zero : ℤ → Bool
is_zero a = not (ltb_ℤ a (pos 0)) && not (ltb_ℤ (pos 0) a)

module _ (orm : Orm) where
  -- `let rate = 1700; if (rate) { rate = dollarRate.rate; }`: the test is of the variable that
  -- was just set, so the row is read whether there is one or not.
  unfoldable pub dollar_rate : Handler ℕ
  dollar_rate = do deref (← gets λ w. w.rate)

  -- The requests to the provider: the currencies, the least amount, the estimate and the payment
  -- itself, of which only one that waits for its money is gone on with.
  unfoldable pub request_crypto_payment : NowPayments → ℤ → Handler CryptoReply
  unfolding dollar_rate
  request_crypto_payment provider total = do
    available ← or_throw provider.currency_available Exception.provider_error
    throw_if (not available) Exception.currency_unavailable
    minimum ← or_throw provider.minimum_amount Exception.provider_error
    rate ← dollar_rate
    throw_if (is_zero total) Exception.provider_error
    estimated ← or_throw (provider.estimated_amount total rate) Exception.provider_error
    throw_if (ltb estimated minimum) Exception.below_minimum
    reply ← or_throw (provider.create_payment total rate) Exception.provider_error
    throw_if (is_failed reply.payment_status) Exception.provider_error
    throw_if (not (is_waiting reply.payment_status)) Exception.provider_refused
    pure reply

  unfoldable pub initialize_crypto_transaction :
      NowPayments → Bool → ℕ → CheckoutDto → Handler CryptoReply
  initialize_crypto_transaction provider brackets now dto = do
    validate_checkout orm brackets now dto
    (property, guest, host, base, applied) ← price_stay orm dto
    reply ← request_crypto_payment provider (amount_due base property.caution_fee applied)
    record_sale orm now dto (crypto_sale property guest host base applied reply)
    pure reply
