-- ===== src/Checkout/Pricing.antt =====
-- The sums that a checkout computes. Prices, fees and credits are whole naira (the columns are
-- integers), so `Math.round` and `Math.ceil` of a percentage are divisions rounded as written. The
-- code multiplies in floating point; the product is taken to be exact.
use sojourn_backend.Prelude.{
  ℕ, suc, ◌+◌, ◌*◌, ◌/◌, ◌≤◌, ◌<◌, ℤ, pos, negsuc, pos_part, neg_part, sub_ℕ, ◌-ℤ◌, leb_ℤ, Option,
  none, some, if◌then◌else◌, arith,
}

-- `property.price * numberOfNights(…)`; the dates were checked before, so there is a night.
unfoldable pub base_price : ℕ → ℤ → ℕ
base_price price nights = price * pos_part nights

-- `Math.round((10 / 100) * base)`
unfoldable pub service_fee : ℕ → ℕ
service_fee base = (base + 5) / 10

-- `Math.round((7.5 / 100) * base)`
unfoldable pub vat_on : ℕ → ℕ
vat_on base = (3 * base + 20) / 40

-- `let creditsToApply = 0; if (dto.credits <= total) creditsToApply = dto.credits`, where a
-- comparison with `undefined` is false.
unfoldable pub credits_to_apply : Option ℤ → ℤ → ℤ
credits_to_apply none total = pos 0
credits_to_apply (some c) total = if leb_ℤ c total then c else pos 0

-- `base + serviceFee + cautionFee + vat - creditsToApply`
unfoldable pub amount_due : ℕ → ℕ → ℤ → ℤ
unfolding service_fee vat_on
amount_due base caution credits = pos (base + service_fee base + caution + vat_on base) -ℤ credits

-- The text of the amount with two zeros appended, read as a number: the amount in kobo.
unfoldable pub in_kobo : ℤ → ℤ
in_kobo (pos n) = pos (n * 100)
in_kobo (negsuc n) = sub_ℕ 0 (suc n * 100)

-- `Math.ceil(EARN_CREDITS_RATE * amount)` with the rate 0.02
unfoldable pub credits_earned : ℤ → ℤ
credits_earned (pos n) = pos ((2 * n + 99) / 100)
credits_earned (negsuc n) = sub_ℕ 0 (2 * suc n / 100)

-- The credits earned are the least whole number that reaches 2% of the amount paid.
pub credits_earned_ceiling :
    (a : ℤ)
    → let c = credits_earned a in
      (2 * pos_part a + 100 * neg_part c ≤ 100 * pos_part c + 2 * neg_part a)
      × (100 * pos_part c + 2 * neg_part a < 2 * pos_part a + 100 * neg_part c + 100)
unfolding credits_earned
credits_earned_ceiling (pos n) = omega arith
credits_earned_ceiling (negsuc n) = ground arith
