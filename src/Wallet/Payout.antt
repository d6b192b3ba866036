-- ===== src/Wallet/Payout.antt =====
-- `updateWithdrawalById` of src/payments/payments.service.ts and
-- src/repositories/payment.repository.ts: the office marks a withdrawal as paid out.
use sojourn_backend.Prelude.{ℕ, ◌≡◌, refl, some, holds, ◌==◌, All, All-every, arith}
use sojourn_backend.Entities.{Payment, PaymentStatus, Withdrawal, WithdrawalStatus}
use sojourn_backend.Orm.{Orm}
use sojourn_backend.App.{World, Handler, ok}

module _ (orm : Orm) where
  unfoldable pub update_withdrawal_by_id : ℕ → Handler (Unit {0})
  update_withdrawal_by_id i w = (
    ok tt,
    record w {
      withdrawals =
          orm.update Withdrawal (λ x. holds x.payment_id i)
            (λ x. record x { status = WithdrawalStatus.paid }) w.withdrawals;
      payments =
          orm.update Payment (λ p. p.id == i)
            (λ p. record p { payment_status = PaymentStatus.completed }) w.payments;
    },
  )

  -- Once a withdrawal is marked as paid out, its payment is completed and the withdrawal of that
  -- payment is paid.
  pub payout_effect :
      (i : ℕ) (w : World)
      → let w' = (update_withdrawal_by_id i w).1 in
        All (λ p. p.id ≡ i → p.payment_status ≡ PaymentStatus.completed) w'.payments
        × All (λ x. x.payment_id ≡ some i → x.status ≡ WithdrawalStatus.paid) w'.withdrawals
  unfolding update_withdrawal_by_id
  payout_effect i w = (
    orm.update_all Payment (λ p. p.id ≡ i → p.payment_status ≡ PaymentStatus.completed)
        (λ p. p.id == i) (λ p. record p { payment_status = PaymentStatus.completed }) w.payments
        (All-every _ (λ p. (λ hit _. refl, λ miss same. absurd (ground arith))) w.payments),
    orm.update_all Withdrawal (λ x. x.payment_id ≡ some i → x.status ≡ WithdrawalStatus.paid)
        (λ x. holds x.payment_id i) (λ x. record x { status = WithdrawalStatus.paid }) w.withdrawals
        (All-every _ (λ x. (λ hit _. refl, λ miss same. absurd (ground arith))) w.withdrawals),
  )
