-- ===== src/Wallet/Records.antt =====
-- The queries of src/repositories/payment.repository.ts that the office's views are applied to.
use sojourn_backend.Prelude.{
  ℕ, ◌≡◌, ◌&&◌, Bool, true, Option, none, some, is_set, holds, List, [], ◌∷◌, map, All,
  if◌then◌else◌, ◌==◌, arith,
}
use sojourn_backend.Entities.{Account, Host, Payment, is_booking_type, is_withdrawal_type}
use sojourn_backend.Orm.{Orm}
use sojourn_backend.App.{World, Result, ok, err, Exception}
use sojourn_backend.Booking.Views.{there}
use sojourn_backend.Wallet.Balance.{WalletPayment, Balance, apply_withdrawals}
use sojourn_backend.Wallet.Withdraw.{wallet_payment}
use sojourn_backend.Wallet.Office.{
  OfficePayment, OfficeWithdrawal, OfficeWithdrawalRecord, transform_office_payment_records,
  transform_office_withdrawal_records, transform_office_withdrawal_record, payments_before,
  HasBegun, office_balance_agrees,
}

-- Whether every row has what a view reads of it.
abbrev every : (Payment → Bool) → List Payment → Bool
every has [] = true
every has (p ∷ ps) = has p && every has ps

module _ (orm : Orm) where
  abbrev related : {Row : Type 0} → (Row → ℕ) → Option ℕ → List Row → Option Row
  related key none t = none
  related key (some i) t = orm.find_one _ (λ r. key r == i) t

  -- The relation `host`
  abbrev host_of : World → Payment → Option Host
  host_of w p = related (λ h. h.id) p.host_id w.hosts

  unfoldable pub get_all_withdrawals : World → Result (List OfficeWithdrawal)
  unfolding transform_office_withdrawal_records
  get_all_withdrawals w =
      let ps = orm.find Payment (λ p. is_withdrawal_type p.payment_type) w.payments in
      if every (λ p. is_set (host_of w p)) ps
      then ok (transform_office_withdrawal_records ps)
      else err Exception.type_error

  unfoldable pub get_all_booking_payments : World → Result (List OfficePayment)
  unfolding transform_office_payment_records
  get_all_booking_payments w =
      let ps = orm.find Payment (λ p. is_booking_type p.payment_type) w.payments in
      if every
        (λ p.
          is_set (related (λ u. u.id) p.user_id w.users)
          && is_set (related (λ b. b.id) p.booking_id w.bookings))
        ps
      then ok (transform_office_payment_records ps)
      else err Exception.type_error

  -- The payments of a host, with their bookings and the properties of these.
  unfoldable pub payments_with_bookings : ℕ → World → List WalletPayment
  unfolding wallet_payment
  payments_with_bookings host w =
      map (wallet_payment orm w) (orm.find Payment (λ p. holds p.host_id host) w.payments)

  unfoldable pub get_withdrawal_record_by_payment_id :
      ℕ → ℕ → ℕ → World → Result OfficeWithdrawalRecord
  unfolding payments_with_bookings transform_office_withdrawal_record
  get_withdrawal_record_by_payment_id today i host w =
      there (orm.find_one Payment (λ p. p.id == i) w.payments) λ p. there (host_of w p) λ owner.
        there (related (λ x. x.id) p.withdrawal_id w.withdrawals) λ x.
          there (orm.find_one Account (λ a. a.id == x.account_id) w.accounts) λ account.
            ok (transform_office_withdrawal_record today p (payments_with_bookings host w))

  -- The balance in the record of a withdrawal is the one that the host would be shown of the
  -- payments made before it, if none of all the payments of the host is for a stay that is paid
  -- for and has not begun.
  pub withdrawal_record_agrees :
      (today i host : ℕ) (w : World) (p : Payment) (r : OfficeWithdrawalRecord) (b : Balance)
      → orm.find_one Payment (λ x. x.id == i) w.payments ≡ some p
      → get_withdrawal_record_by_payment_id today i host w ≡ ok r
      → All HasBegun (payments_with_bookings host w)
      → apply_withdrawals today (payments_before p.created_at (payments_with_bookings host w))
        ≡ ok b
      → r.available_balance ≡ b.available_balance
  unfolding get_withdrawal_record_by_payment_id
  withdrawal_record_agrees today i host w p r b ep er h e =
      let ps = payments_with_bookings host w in
      let same : r ≡ transform_office_withdrawal_record today p ps = ground arith in
      rw same (office_balance_agrees today p ps b h e)
