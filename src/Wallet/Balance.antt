-- ===== src/Wallet/Balance.antt =====
-- The balance of a host: `applyWithdrawals` of src/utils/wallet-utils.ts. The quotients that the
-- code computes in floating point are exact fractions here.
use sojourn_backend.Prelude.{
  ℕ, ◌+◌, ◌*◌, ℤ, pos, negsuc, ◌+ℤ◌, ◌-ℤ◌, ◌*ℤ◌, ltb, ltb_ℤ, Bool, not, ◌&&◌, ◌||◌, Option, none,
  some, List, [], ◌∷◌, ◌==◌, if◌then◌else◌,
}
use sojourn_backend.Entities.{
  Booking, Payment, is_completed, is_booking_type, is_withdrawal_type, is_finished, is_processing,
}
use sojourn_backend.App.{Result, ok, err, Exception}
use sojourn_backend.Time.{number_of_nights}

-- A fraction; the denominator 0 stands for NaN.
pub record Fraction : Type 0 where
  pub num : ℤ
  pub den : ℕ

-- a / n
unfoldable pub over : ℤ → ℤ → Fraction
over a (pos n) = record { num = a; den = n }
over a (negsuc n) = record { num = pos 0 -ℤ a; den = n + 1 }

unfoldable pub plus : Fraction → Fraction → Fraction
plus f g = record { num = f.num *ℤ pos g.den +ℤ g.num *ℤ pos f.den; den = f.den * g.den }

unfoldable pub minus_whole : Fraction → ℤ → Fraction
minus_whole f k = record { num = f.num -ℤ k *ℤ pos f.den; den = f.den }

-- f < k, which is false of NaN
unfoldable pub is_below : Fraction → ℕ → Bool
is_below f k = not (f.den == 0) && ltb_ℤ f.num (pos (k * f.den))

-- A payment as `getWalletByHostId` hands it over, with its booking.
pub record WalletPayment : Type 0 where
  pub payment : Payment
  pub stay : Option Booking
  pub has_property : Bool

pub record Balance : Type 0 where
  pub wallet_balance : Fraction
  pub available_balance : Fraction

-- A nullable amount that is subtracted if it is there and not zero.
abbrev or_zero : Option ℤ → ℤ
or_zero none = pos 0
or_zero (some a) = a

-- What is left for the host of the payment for a stay.
unfoldable pub stay_price : Payment → ℤ
stay_price p =
    p.amount
    -ℤ p.transaction_fee
    -ℤ p.vat
    -ℤ or_zero p.sojourn_credits_amount
    -ℤ or_zero p.caution_fee

-- The part of it that was earned by today, less two hundredths.
unfoldable pub earned_by : ℕ → Payment → Booking → Fraction
unfolding over stay_price
earned_by today p b =
    let nights = number_of_nights b.check_in b.check_out in
    let spent = if ltb today b.check_out then number_of_nights b.check_in today else nights in
    over (pos 98 *ℤ (spent *ℤ stay_price p)) (pos 100 *ℤ nights)

unfoldable pub add_earned : ℕ → Fraction → WalletPayment → Fraction
unfolding plus earned_by
add_earned today sum p = elim p.stay [
  | none ↦ sum
  | some b ↦
      if p.has_property
        && (is_completed p.payment.payment_status
            && (is_booking_type p.payment.payment_type
                && (is_finished b.status || is_processing b.status)))
      then plus sum (earned_by today p.payment b)
      else sum
]

unfoldable pub total_earned : ℕ → Fraction → List WalletPayment → Fraction
unfolding add_earned
total_earned today sum [] = sum
total_earned today sum (p ∷ ps) = total_earned today (add_earned today sum p) ps

-- `totalWithdrawals -= amount + vat + serviceFee`, over the withdrawals
unfoldable pub total_withdrawals : ℤ → List WalletPayment → ℤ
total_withdrawals sum [] = sum
total_withdrawals sum (p ∷ ps) =
    total_withdrawals
      (if is_withdrawal_type p.payment.payment_type
        then sum -ℤ (p.payment.amount +ℤ p.payment.vat +ℤ p.payment.transaction_fee)
        else sum)
      ps

unfoldable pub deposit : Payment → Booking → Fraction
unfolding over stay_price
deposit p b =
    let nights = number_of_nights b.check_in b.check_out in over (stay_price p *ℤ nights) nights

-- The loop over the deposits reads the dates of the booking.
unfoldable pub total_deposits : Fraction → List WalletPayment → Result Fraction
unfolding plus deposit
total_deposits sum [] = ok sum
total_deposits sum (p ∷ ps) =
    if is_booking_type p.payment.payment_type && is_completed p.payment.payment_status
    then elim p.stay [
      | none ↦ err Exception.type_error
      | some b ↦ total_deposits (plus sum (deposit p.payment b)) ps
    ]
    else total_deposits sum ps

abbrev pub zero_fraction : Fraction
zero_fraction = record { num = pos 0; den = 1 }

unfoldable pub apply_withdrawals : ℕ → List WalletPayment → Result Balance
unfolding total_earned total_withdrawals total_deposits minus_whole
apply_withdrawals today ps =
    let taken = total_withdrawals (pos 0) ps in
    elim (total_deposits zero_fraction ps) [
      | err e ↦ err e
      | ok sum ↦ ok (record {
        wallet_balance = minus_whole sum taken;
        available_balance = minus_whole (total_earned today zero_fraction ps) taken;
      })
    ]
