-- ===== src/Wallet/History.antt =====
-- What is shown of the payments of a wallet and of the credits: `transformWalletRecords`,
-- `transfromPaymentRecord` and `formatSojournCredits` of src/utils/wallet-utils.ts, with their
-- queries. Descriptions, references, dates and names are left out, and the order of the rows.
use sojourn_backend.Prelude.{
  ℕ, ℤ, pos, ◌+ℤ◌, ◌-ℤ◌, ◌*ℤ◌, ltb_ℤ, Bool, true, false, ◌&&◌, ◌||◌, Option, none, some, holds,
  List, [], ◌∷◌, map, ◌==◌, if◌then◌else◌,
}
use sojourn_backend.Entities.{
  Payment, PaymentTypes, PaymentMethod, SojournCredit, SojournCreditsType, is_completed,
  is_withdrawal_type, is_confirmed,
}
use sojourn_backend.Orm.{Orm}
use sojourn_backend.App.{World, Result, ok, err, Exception, all_rows}
use sojourn_backend.Time.{number_of_nights}
use sojourn_backend.Booking.Views.{less, host_payment, there}
use sojourn_backend.Wallet.Balance.{Fraction, WalletPayment, over}
use sojourn_backend.Wallet.Withdraw.{wallet_payment}

-- A row of `transformWalletRecords`
pub record WalletRow : Type 0 where
  pub id : ℕ
  pub payment_method : PaymentMethod
  pub payment_type : PaymentTypes
  pub amount : ℤ
  pub transaction_fee : Fraction

-- `transfromPaymentRecord`: the fee and the VAT are those of a withdrawal.
pub record PaymentRecord : Type 0 where
  pub id : ℕ
  pub payment_method : PaymentMethod
  pub payment_type : PaymentTypes
  pub amount : ℤ
  pub withdrawal_fee : Option Fraction
  pub withdrawal_vat : Option ℤ

-- A row of `formatSojournCredits`
pub record CreditRow : Type 0 where
  pub id : ℕ
  pub total : ℤ
  pub amount : ℤ
  pub credit_type : SojournCreditsType

abbrev is_refund_type : PaymentTypes → Bool
is_refund_type PaymentTypes.refund = true
is_refund_type _ = false

-- The share of a booking is multiplied by its nights, whose property is read.
unfoldable pub transform_wallet_record : WalletPayment → Result WalletRow
unfolding host_payment over
transform_wallet_record r =
    let p = r.payment in
    elim r.stay [
      | none ↦ ok (record {
        id = p.id;
        payment_method = p.payment_method;
        payment_type = p.payment_type;
        amount = p.amount +ℤ p.vat +ℤ p.transaction_fee;
        transaction_fee = over p.transaction_fee (pos 1);
      })
      | some b ↦
          let shown = host_payment p *ℤ number_of_nights b.check_in b.check_out in
          if r.has_property
          then ok (record {
            id = p.id;
            payment_method = p.payment_method;
            payment_type = p.payment_type;
            amount = shown;
            transaction_fee = over (pos 2 *ℤ shown) (pos 100);
          })
          else err Exception.type_error
    ]

unfoldable pub transform_payment_record : Payment → PaymentRecord
unfolding less over
transform_payment_record p =
    let start =
      if is_withdrawal_type p.payment_type
      then p.amount
      else p.amount -ℤ p.vat -ℤ p.transaction_fee in
    let shown = less (less start p.sojourn_credits_amount) p.caution_fee in
    record {
      id = p.id;
      payment_method = p.payment_method;
      payment_type = p.payment_type;
      amount = shown;
      withdrawal_fee =
          if is_withdrawal_type p.payment_type
          then some (over (pos 2 *ℤ shown) (pos 100))
          else none;
      withdrawal_vat = if is_withdrawal_type p.payment_type then some p.vat else none;
    }

-- `total += v.amount`
unfoldable pub sum_credits : ℤ → List SojournCredit → ℤ
sum_credits sum [] = sum
sum_credits sum (c ∷ cs) = sum_credits (sum +ℤ c.amount) cs

unfoldable pub format_sojourn_credits : List SojournCredit → List CreditRow
unfolding sum_credits
format_sojourn_credits cs =
    let total = sum_credits (pos 0) cs in
    map
      (λ c. record {
        id = c.id;
        total = total;
        amount = c.amount;
        credit_type =
            if ltb_ℤ c.amount (pos 0)
            then SojournCreditsType.outgoing
            else SojournCreditsType.incoming;
      })
      cs

module _ (orm : Orm) where
  unfoldable pub get_wallet_payments_by_host_id : ℕ → World → Result (List WalletRow)
  unfolding transform_wallet_record all_rows wallet_payment
  get_wallet_payments_by_host_id host w = all_rows transform_wallet_record (
      map (wallet_payment orm w) (
        orm.find Payment
          (λ p.
            holds p.host_id host
            && (is_completed p.payment_status
                || (is_withdrawal_type p.payment_type || is_refund_type p.payment_type)))
          w.payments))

  unfoldable pub get_wallet_payments_by_guests_id : ℕ → World → Result (List WalletRow)
  unfolding transform_wallet_record all_rows wallet_payment
  get_wallet_payments_by_guests_id guest w =
      all_rows transform_wallet_record
        (map (wallet_payment orm w) (orm.find Payment (λ p. holds p.user_id guest) w.payments))

  -- The type of the record that is found is read.
  unfoldable pub get_wallet_payment_by_id : ℕ → World → Result PaymentRecord
  unfolding transform_payment_record
  get_wallet_payment_by_id i w =
      there (orm.find_one Payment (λ p. p.id == i) w.payments) λ p. ok (transform_payment_record p)

  unfoldable pub get_sojourn_credits_by_user_id : ℕ → World → List CreditRow
  unfolding format_sojourn_credits
  get_sojourn_credits_by_user_id user w =
      format_sojourn_credits
        (orm.find SojournCredit (λ c. (c.user_id == user) && is_confirmed c.status) w.credits)
