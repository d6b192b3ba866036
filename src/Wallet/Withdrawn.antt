-- ===== src/Wallet/Withdrawn.antt =====
-- When a withdrawal goes through, what it records, and what it does to the balance.
use sojourn_backend.Prelude.{
  ℕ, ◌+◌, ◌-◌, ap, subst, ◌≡◌, ◌<◌, refl, ℤ, pos, ◌+ℤ◌, ◌-ℤ◌, sub_ℕ, abs, true, false, is_set, none,
  some, List, [], ◌∷◌, Bool-cases, inl, inr, ◌==◌, if◌then◌else◌, arith, int_laws,
}
use sojourn_backend.Entities.{
  Payment, PaymentStatus, Wallet, Withdrawal, WithdrawalStatus, is_withdrawal_type,
}
use sojourn_backend.Orm.{Orm}
use sojourn_backend.App.{World, ok}
use sojourn_backend.Checkout.Initialize.{get_host_wallet_by_host_id}
use sojourn_backend.Wallet.Balance.{Balance, WalletPayment, total_withdrawals}
use sojourn_backend.Wallet.Withdraw.{
  WithdrawDto, withdrawal_fee, withdrawal_vat, withdrawal_payment, withdraw, record_withdrawal,
}

-- The sum over the withdrawals, from the end.
abbrev sum_withdrawals : List WalletPayment → ℤ
sum_withdrawals [] = pos 0
sum_withdrawals (p ∷ ps) =
    if is_withdrawal_type p.payment.payment_type
    then sum_withdrawals ps -ℤ (p.payment.amount +ℤ p.payment.vat +ℤ p.payment.transaction_fee)
    else sum_withdrawals ps

abs_difference :
    (gross : ℕ) → 1613 < gross → abs (sub_ℕ gross (withdrawal_fee + withdrawal_vat)) ≡ gross - 1613
abs_difference gross h = ground arith

amount_out :
    (gross : ℕ)
    → 1613 < gross
    → (pos 0 -ℤ pos (abs (sub_ℕ gross (withdrawal_fee + withdrawal_vat)))) +ℤ pos gross ≡ pos 1613
amount_out gross h = rw (abs_difference gross h) (omega int_laws)

module _ (orm : Orm) where
  Recorded : WithdrawDto → ℕ → World → Type 0
  Recorded dto i w' =
      (p : Payment) × (x : Withdrawal) × (orm.find_one Payment (λ y. y.id == i) w'.payments
        ≡ some p)
      × (orm.find_one Withdrawal (λ y. y.id == x.id) w'.withdrawals ≡ some x)
      × (p.withdrawal_id ≡ some x.id)
      × (x.account_id ≡ dto.account_id)
      × (x.payment_id ≡ some i)
      × (p.amount +ℤ pos (abs dto.amount) ≡ pos 1613)
      × (p.payment_status ≡ PaymentStatus.pending)

  record_withdrawal-Recorded :
      (now : ℕ) (dto : WithdrawDto) (w : World)
      → 1613 < abs dto.amount
      → is_set dto.description ≡ true
      → (i : ℕ) × ((record_withdrawal orm now dto w).0 ≡ ok i)
        × Recorded dto i (record_withdrawal orm now dto w).1
  unfolding record_withdrawal Recorded withdrawal_payment
  record_withdrawal-Recorded now dto w h titled =
      rw (titled, record_withdrawal)
        (
          orm.generate Payment (λ y. y.id) w.payments,
          refl,
          (
            linked,
            x,
            orm.save_found Payment (λ y. y.id) linked _,
            orm.save_found Withdrawal (λ y. y.id) x _,
            refl,
            refl,
            refl,
            amount_out (abs dto.amount) h,
            refl,
          ),
        )
    where
      x : Withdrawal
      x = record {
        id = orm.generate Withdrawal (λ y. y.id) w.withdrawals;
        account_id = dto.account_id;
        payment_id = some (orm.generate Payment (λ y. y.id) w.payments);
        status = WithdrawalStatus.pending;
      }

      linked : Payment
      linked = record (withdrawal_payment now dto (orm.generate Payment (λ y. y.id) w.payments)) {
        withdrawal_id = some x.id;
      }

  withdraw-ok :
      (now : ℕ) (dto : WithdrawDto) (w w' : World) (i : ℕ)
      → withdraw orm now dto w ≡ (ok i, w')
      → (record_withdrawal orm now dto (get_host_wallet_by_host_id orm dto.host_id w).1
          ≡ (ok i, w'))
        × (1613 < abs dto.amount)
        × (is_set dto.description ≡ true)
  unfolding withdraw get_host_wallet_by_host_id record_withdrawal
  withdraw-ok now dto w w' i h = (ground arith, ground arith, ground arith)

  -- A withdrawal that goes through, for which its body has to carry a description beyond the
  -- declared fields, leaves a pending payment of the amount less the fee and its VAT, counted as
  -- negative, which is found by the identifier that is returned and names the withdrawal recorded
  -- for the account.
  pub withdraw_effect :
      (now : ℕ) (dto : WithdrawDto) (w w' : World) (i : ℕ)
      → withdraw orm now dto w ≡ (ok i, w')
      → (p : Payment) × (x : Withdrawal) × (orm.find_one Payment (λ y. y.id == i) w'.payments
          ≡ some p)
        × (orm.find_one Withdrawal (λ y. y.id == x.id) w'.withdrawals ≡ some x)
        × (p.withdrawal_id ≡ some x.id)
        × (x.account_id ≡ dto.account_id)
        × (x.payment_id ≡ some i)
        × (p.amount +ℤ pos (abs dto.amount) ≡ pos 1613)
        × (p.payment_status ≡ PaymentStatus.pending)
  unfolding Recorded
  withdraw_effect now dto w w' i h =
      let (same, large, titled) = withdraw-ok now dto w w' i h in
      let w1 = (get_host_wallet_by_host_id orm dto.host_id w).1 in
      let r = record_withdrawal-Recorded now dto w1 large titled in
      let index : r.0 ≡ i = cc in
      subst (λ j. Recorded dto j w') index (subst (Recorded dto r.0) (ap (λ z. z.1) same) r.2)

total_withdrawals-sum :
    (sum : ℤ) (ps : List WalletPayment) → total_withdrawals sum ps ≡ sum +ℤ sum_withdrawals ps
unfolding total_withdrawals
total_withdrawals-sum sum [] = omega int_laws
total_withdrawals-sum sum (p ∷ ps) = elim (Bool-cases (is_withdrawal_type p.payment.payment_type)) [
  | inl e ↦
      rw
        (
          e,
          total_withdrawals-sum
              (sum -ℤ (p.payment.amount +ℤ p.payment.vat +ℤ p.payment.transaction_fee)) ps,
        )
        (omega int_laws)
  | inr e ↦ rw (e, total_withdrawals-sum sum ps)
]

-- A withdrawal of more than the fee and its VAT, once it stands first among the payments of a
-- wallet, raises the total that is taken off the balance by the amount asked for less twice the
-- fee and its VAT.
pub withdrawal_lowers_balance :
    (now i : ℕ) (dto : WithdrawDto) (ps : List WalletPayment)
    → 1613 < abs dto.amount
    → total_withdrawals
        (pos 0)
        (record { payment = withdrawal_payment now dto i; stay = none; has_property = false } ∷ ps)
      ≡ total_withdrawals (pos 0) ps +ℤ (pos (abs dto.amount) -ℤ pos 3226)
unfolding total_withdrawals withdrawal_payment
withdrawal_lowers_balance now i dto ps h =
    let first =
      pos 0
      -ℤ (pos 0
          -ℤ pos (abs (sub_ℕ (abs dto.amount) (withdrawal_fee + withdrawal_vat)))
          +ℤ pos withdrawal_vat
          +ℤ pos withdrawal_fee) in
    rw
      (
        total_withdrawals-sum first ps,
        total_withdrawals-sum (pos 0) ps,
        abs_difference (abs dto.amount) h,
      )
      (omega int_laws)
