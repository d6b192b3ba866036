-- ===== src/Wallet/Withdraw.antt =====
-- `withdraw` of src/wallet/wallet.service.ts, with the functions of
-- src/repositories/wallet.repository.ts that it calls.
use sojourn_backend.Prelude.{
  ℕ, ◌+◌, ℤ, pos, ◌-ℤ◌, sub_ℕ, abs, leb, false, not, Option, none, some, map, holds, is_set, ◌==◌,
}
use sojourn_backend.Entities.{
  Booking, Payment, PaymentStatus, PaymentTypes, PaymentMethod, Property, Wallet, Withdrawal,
  WithdrawalStatus,
}
use sojourn_backend.Orm.{Orm}
use sojourn_backend.App.{
  World, Handler, Result, ok, err, Exception, ◌>>=◌, ◌>>◌, deref, throw_if, modify, gets, pure,
}
use sojourn_backend.Checkout.Initialize.{get_host_wallet_by_host_id}
use sojourn_backend.Wallet.Balance.{Balance, WalletPayment, apply_withdrawals, is_below}

-- `FIXED_WITHDRAWAL_FEE`, and `Math.round(0.075 * FIXED_WITHDRAWAL_FEE)`
abbrev pub withdrawal_fee : ℕ
withdrawal_fee = 1500

abbrev pub withdrawal_vat : ℕ
withdrawal_vat = 113

-- The type `Withdraw` of src/wallet/types.ts. No pipe takes away what a body has beyond it, and the
-- body is spread into the row of the payment: `description` is such a field.
pub record WithdrawDto : Type 0 where
  pub wallet_id : ℕ
  pub host_id : ℕ
  pub amount : ℤ
  pub account_id : ℕ
  pub description : Option ℕ

-- The row of a withdrawal: what is paid out, as a negative amount.
unfoldable pub withdrawal_payment : ℕ → WithdrawDto → ℕ → Payment
withdrawal_payment now dto i = record {
  id = i;
  booking_id = none;
  user_id = none;
  host_id = some dto.host_id;
  wallet_id = some dto.wallet_id;
  withdrawal_id = none;
  payment_status = PaymentStatus.pending;
  payment_type = PaymentTypes.withdrawal;
  payment_method = PaymentMethod.transfer;
  paystack_reference = none;
  amount = pos 0 -ℤ pos (abs (sub_ℕ (abs dto.amount) (withdrawal_fee + withdrawal_vat)));
  transaction_fee = pos withdrawal_fee;
  vat = pos withdrawal_vat;
  sojourn_credits_amount = none;
  caution_fee = none;
  created_at = now;
}

module _ (orm : Orm) where
  -- A payment with the relations that `getWalletByHostId` loads.
  unfoldable pub wallet_payment : World → Payment → WalletPayment
  wallet_payment w p = elim p.booking_id [
    | none ↦ record { payment = p; stay = none; has_property = false }
    | some i ↦ elim (orm.find_one Booking (λ b. b.id == i) w.bookings) [
      | none ↦ record { payment = p; stay = none; has_property = false }
      | some b ↦ record {
        payment = p;
        stay = some b;
        has_property = is_set (orm.find_one Property (λ x. x.id == b.property_id) w.properties);
      }
    ]
  ]

  unfoldable pub get_wallet_by_host_id : ℕ → ℕ → World → Result (Option Balance)
  unfolding wallet_payment
  get_wallet_by_host_id today host w =
      elim (orm.find_one Wallet (λ x. x.host_id == host) w.wallets) [
        | none ↦ ok none
        | some x ↦
            elim (apply_withdrawals today (
              map (wallet_payment w) (orm.find Payment (λ p. holds p.wallet_id x.id) w.payments))) [
                | err e ↦ err e
                | ok balance ↦ ok (some balance)
              ]
      ]

  unfoldable pub save_withdrawal : Withdrawal → Handler (Unit {0})
  save_withdrawal x =
      modify λ w. record w { withdrawals = orm.save Withdrawal (λ y. y.id) x w.withdrawals }

  unfoldable pub save_withdrawal_payment : Payment → Handler (Unit {0})
  save_withdrawal_payment p =
      modify λ w. record w { payments = orm.save Payment (λ y. y.id) p w.payments }

  -- `WalletRepository.withdraw`. The column of the description of a payment may not be null and
  -- has no default, so the insert fails without one. The payment is saved twice, the second time
  -- with the identifier of the withdrawal. The first save sets the payment of the withdrawal, whose
  -- table has the column of the relation.
  unfoldable pub record_withdrawal : ℕ → WithdrawDto → Handler ℕ
  unfolding withdrawal_payment save_withdrawal save_withdrawal_payment
  record_withdrawal now dto = do
    x ← gets λ w. record {
      id = orm.generate Withdrawal (λ y. y.id) w.withdrawals;
      account_id = dto.account_id;
      payment_id = none;
      status = WithdrawalStatus.pending;
    }
    save_withdrawal x
    throw_if (not (is_set dto.description)) Exception.query_failed
    p ← gets λ w. withdrawal_payment now dto (orm.generate Payment (λ y. y.id) w.payments)
    save_withdrawal_payment p
    save_withdrawal (record x { payment_id = some p.id })
    save_withdrawal_payment (record p { withdrawal_id = some x.id })
    pure p.id

  unfoldable pub withdraw : ℕ → WithdrawDto → Handler ℕ
  withdraw now dto = do
    host_wallet ← get_host_wallet_by_host_id orm dto.host_id
    found ← λ w. (get_wallet_by_host_id now dto.host_id w, w)
    balance ← deref found
    let gross = abs dto.amount
    throw_if (leb gross 0) Exception.amount_not_positive
    throw_if (leb gross (withdrawal_fee + withdrawal_vat)) Exception.amount_below_fee
    throw_if (is_below balance.available_balance (gross + withdrawal_fee + withdrawal_vat))
        Exception.insufficient_balance
    record_withdrawal now dto
