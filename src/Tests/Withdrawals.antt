-- ===== src/Tests/Withdrawals.antt =====
-- Withdrawals from the wallet of a host whose one stay is over.
use sojourn_backend.Prelude.{
  ◌≡◌, refl, pos, negsuc, ◌+ℤ◌, ◌-ℤ◌, ◌*ℤ◌, none, some, [], ◌∷◌, ◌==◌, arith,
}
use sojourn_backend.Entities.{
  BookingStatus, Payment, PaymentStatus, Wallet, Withdrawal, WithdrawalStatus,
}
use sojourn_backend.App.{World}
use sojourn_backend.Time.{number_of_nights}
use sojourn_backend.Checkout.Initialize.{get_host_wallet_by_host_id}
use sojourn_backend.Wallet.Balance.{Balance, apply_withdrawals, is_below}
use sojourn_backend.Wallet.Withdraw.{
  WithdrawDto, withdrawal_payment, get_wallet_by_host_id, record_withdrawal, withdraw,
}
use sojourn_backend.Wallet.Withdrawn.{withdraw_effect}
use sojourn_backend.Wallet.Records.{
  payments_with_bookings, get_withdrawal_record_by_payment_id, withdrawal_record_agrees,
}
use sojourn_backend.Wallet.Office.{transform_office_withdrawal_record, payments_before}
use sojourn_backend.Tests.Database.{list_orm}
use sojourn_backend.Tests.Samples.{on, booking, payment, sample}

abbrev wallet : Wallet
wallet = record { id = 50; host_id = 30 }

abbrev stay_over : World
stay_over = record sample {
  wallets = wallet ∷ [];
  bookings = booking 10 BookingStatus.finished none ∷ [];
  payments = record (payment 1 10 PaymentStatus.completed) { wallet_id = some 50 } ∷ [];
}

abbrev five_thousand : WithdrawDto
five_thousand = record {
  wallet_id = 50;
  host_id = 30;
  amount = negsuc 4999;
  account_id = 60;
  description = some 1;
}

-- The stay of three nights earns 98 of 300 parts of three times 30000.
abbrev earnings : Balance
earnings = record {
  wallet_balance = record { num = pos 90000; den = 3 };
  available_balance = record { num = pos 8820000; den = 300 };
}

withdraw_effect_example :
    (p : Payment) × (x : Withdrawal) × (list_orm.find_one Payment
        (λ y. y.id == 2)
        (withdraw list_orm (on 9) five_thousand stay_over).1.payments
      ≡ some p)
    × (list_orm.find_one Withdrawal
          (λ y. y.id == x.id)
          (withdraw list_orm (on 9) five_thousand stay_over).1.withdrawals
        ≡ some x)
    × (p.withdrawal_id ≡ some x.id)
    × (x.account_id ≡ 60)
    × (x.payment_id ≡ some 2)
    × (p.amount +ℤ pos 5000 ≡ pos 1613)
    × (p.payment_status ≡ PaymentStatus.pending)
unfolding list_orm withdraw get_host_wallet_by_host_id get_wallet_by_host_id apply_withdrawals
    is_below record_withdrawal number_of_nights ◌-ℤ◌ ◌*ℤ◌ ◌+ℤ◌
withdraw_effect_example =
    withdraw_effect list_orm (on 9) five_thousand stay_over
      (withdraw list_orm (on 9) five_thousand stay_over).1 2 refl

-- A withdrawal that was asked for after the stay was paid for.
abbrev asked : Payment
asked = record (withdrawal_payment 5 five_thousand 2) { withdrawal_id = some 70 }

abbrev asked_for : World
asked_for = record stay_over {
  payments = payment 1 10 PaymentStatus.completed ∷ asked ∷ [];
  withdrawals =
      record { id = 70; account_id = 60; payment_id = some 2; status = WithdrawalStatus.pending }
      ∷ [];
  accounts =
      record { id = 60; host_id = 30; wallet_id = 50; bank_name = 1; bank_account_number = 2 } ∷ [];
}

withdrawal_record_agrees_example :
    (transform_office_withdrawal_record
      (on 9)
      asked
      (payments_with_bookings list_orm 30 asked_for)).available_balance
    ≡ earnings.available_balance
unfolding list_orm apply_withdrawals number_of_nights ◌-ℤ◌ ◌*ℤ◌ ◌+ℤ◌ payments_before
    payments_with_bookings get_withdrawal_record_by_payment_id withdrawal_payment
withdrawal_record_agrees_example =
    withdrawal_record_agrees list_orm (on 9) 2 30 asked_for asked _ earnings refl refl
      ((λ b e c. ground arith), ((λ b e. absurd cc), tt)) refl
