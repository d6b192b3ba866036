-- ===== src/Wallet/Office.antt =====
-- What the office sees of payments and withdrawals: src/utils/payment-utils.ts. Names, addresses,
-- dates and the number of the bank account are left out.
use sojourn_backend.Prelude.{
  ℕ, ◌≡◌, ◌≢◌, refl, ℤ, pos, ◌+ℤ◌, ◌-ℤ◌, ltb, abs, Bool, true, false, ◌&&◌, ◌||◌, none, some, List,
  [], ◌∷◌, map, All, Option-cases, Bool-cases, inl, inr, if◌then◌else◌, arith,
}
use sojourn_backend.Entities.{
  is_paid_pending, Booking, BookingStatus, Payment, PaymentStatus, PaymentMethod, is_completed,
  is_booking_type, is_withdrawal_type, is_finished, is_processing,
}
use sojourn_backend.App.{Result-cases, ok}
use sojourn_backend.Wallet.Balance.{
  Fraction, WalletPayment, Balance, plus, minus_whole, earned_by, add_earned, total_earned,
  total_withdrawals, total_deposits, apply_withdrawals, zero_fraction,
}

-- A row of `transformOfficePaymentRecords`
pub record OfficePayment : Type 0 where
  pub id : ℕ
  pub total : ℤ
  pub amount_paid : ℤ
  pub payment_method : PaymentMethod
  pub payment_status : PaymentStatus

-- A row of `transformOfficeWithdrawalRecords`
pub record OfficeWithdrawal : Type 0 where
  pub id : ℕ
  pub total : ℤ
  pub amount : ℕ
  pub status : PaymentStatus

-- `transformOfficeWithdrawalRecord`
pub record OfficeWithdrawalRecord : Type 0 where
  pub id : ℕ
  pub status : PaymentStatus
  pub amount : ℕ
  pub available_balance : Fraction

-- The sum of the amounts of the payments that a test admits.
unfoldable pub total_amount : (Payment → Bool) → List Payment → ℤ
total_amount counts [] = pos 0
total_amount counts (p ∷ ps) =
    let rest = total_amount counts ps in if counts p then p.amount +ℤ rest else rest

-- The rows of payments that have their user and their booking.
unfoldable pub transform_office_payment_records : List Payment → List OfficePayment
unfolding total_amount
transform_office_payment_records ps =
    let total =
      total_amount (λ p. is_completed p.payment_status && is_booking_type p.payment_type) ps in
    map
      (λ p. record {
        id = p.id;
        total = total;
        amount_paid = p.amount;
        payment_method = p.payment_method;
        payment_status = p.payment_status;
      })
      ps

unfoldable pub transform_office_withdrawal_records : List Payment → List OfficeWithdrawal
unfolding total_amount
transform_office_withdrawal_records ps =
    let total = total_amount (λ p. is_completed p.payment_status) ps in
    map (λ p. record { id = p.id; total = total; amount = abs p.amount; status = p.payment_status })
      ps

-- A step of the `reduce` of `getAvailableBalance`, which also counts bookings that are paid for and
-- have not begun.
unfoldable pub add_office_earned : ℕ → ℕ → Fraction → WalletPayment → Fraction
unfolding plus earned_by
add_office_earned today date sum p = elim p.stay [
  | none ↦ sum
  | some b ↦
      if ltb p.payment.created_at date
        && (p.has_property
            && (is_completed p.payment.payment_status
                && (is_booking_type p.payment.payment_type
                    && (is_finished b.status
                        || (is_paid_pending b.status || is_processing b.status)))))
      then plus sum (earned_by today p.payment b)
      else sum
]

unfoldable pub total_office_earned : ℕ → ℕ → Fraction → List WalletPayment → Fraction
unfolding add_office_earned
total_office_earned today date sum [] = sum
total_office_earned today date sum (p ∷ ps) =
    total_office_earned today date (add_office_earned today date sum p) ps

unfoldable pub withdrawals_before : ℕ → ℤ → List WalletPayment → ℤ
withdrawals_before date sum [] = sum
withdrawals_before date sum (p ∷ ps) =
    withdrawals_before date
      (if is_withdrawal_type p.payment.payment_type && ltb p.payment.created_at date
        then sum -ℤ (p.payment.amount +ℤ p.payment.vat +ℤ p.payment.transaction_fee)
        else sum)
      ps

-- `getAvailableBalance`, on the day `today`, of what was there at `date`.
unfoldable pub get_available_balance : ℕ → ℕ → List WalletPayment → Fraction
unfolding total_office_earned withdrawals_before minus_whole
get_available_balance today date ps =
    minus_whole (total_office_earned today date zero_fraction ps)
      (withdrawals_before date (pos 0) ps)

unfoldable pub transform_office_withdrawal_record :
    ℕ → Payment → List WalletPayment → OfficeWithdrawalRecord
unfolding get_available_balance
transform_office_withdrawal_record today p ps = record {
  id = p.id;
  status = p.payment_status;
  amount = abs p.amount;
  available_balance = get_available_balance today p.created_at ps;
}

-- The payments that were made before a date.
unfoldable pub payments_before : ℕ → List WalletPayment → List WalletPayment
payments_before date [] = []
payments_before date (p ∷ ps) =
    let rest = payments_before date ps in if ltb p.payment.created_at date then p ∷ rest else rest

-- A payment that is not for a stay that is paid for and has not begun.
abbrev pub HasBegun : WalletPayment → Type 0
HasBegun p = (b : Booking) → p.stay ≡ some b → b.status ≢ BookingStatus.paid_pending

not_paid_pending : (s : BookingStatus) → s ≢ BookingStatus.paid_pending → is_paid_pending s ≡ false
not_paid_pending s h = ground arith

early_earned :
    (today date : ℕ) (sum : Fraction) (p : WalletPayment)
    → HasBegun p
    → ltb p.payment.created_at date ≡ true
    → add_office_earned today date sum p ≡ add_earned today sum p
unfolding add_office_earned add_earned
early_earned today date sum p h early = elim (Option-cases p.stay) [
  | inl gone ↦ ground arith
  | inr (b, e) ↦ let begun = not_paid_pending b.status (h b e) in ground arith
]

late_earned :
    (today date : ℕ) (sum : Fraction) (p : WalletPayment)
    → ltb p.payment.created_at date ≡ false
    → add_office_earned today date sum p ≡ sum
unfolding add_office_earned
late_earned today date sum p late = elim (Option-cases p.stay) [
  | inl gone ↦ ground arith
  | inr (b, e) ↦ ground arith
]

total_office_earned_lem :
    (today date : ℕ) (ps : List WalletPayment) (sum : Fraction)
    → All HasBegun ps
    → total_office_earned today date sum ps ≡ total_earned today sum (payments_before date ps)
unfolding total_office_earned total_earned payments_before
total_office_earned_lem today date [] sum h = refl
total_office_earned_lem today date (p ∷ ps) sum h =
    elim (Bool-cases (ltb p.payment.created_at date)) [
      | inl early ↦
          rw (early, early_earned today date sum p h.0 early)
            (total_office_earned_lem today date ps (add_earned today sum p) h.1)
      | inr late ↦
          rw (late, late_earned today date sum p late)
            (total_office_earned_lem today date ps sum h.1)
    ]

withdrawals_before_lem :
    (date : ℕ) (ps : List WalletPayment) (sum : ℤ)
    → withdrawals_before date sum ps ≡ total_withdrawals sum (payments_before date ps)
unfolding withdrawals_before total_withdrawals payments_before
withdrawals_before_lem date [] sum = refl
withdrawals_before_lem date (p ∷ ps) sum = elim (Bool-cases (ltb p.payment.created_at date)) [
  | inl early ↦
      let kind : (is_withdrawal_type p.payment.payment_type && ltb p.payment.created_at date)
          ≡ is_withdrawal_type p.payment.payment_type =
        ground arith in
      rw (kind, early) (withdrawals_before_lem date ps _)
  | inr late ↦
      let kind : (is_withdrawal_type p.payment.payment_type && ltb p.payment.created_at date)
          ≡ false =
        ground arith in
      rw (kind, late) (withdrawals_before_lem date ps sum)
]

-- The balance that the office is shown for a withdrawal is the one that the host is shown of the
-- payments made before it, if none of them all is for a stay that is paid for and has not begun.
pub office_balance_agrees :
    (today : ℕ) (p : Payment) (ps : List WalletPayment) (b : Balance)
    → All HasBegun ps
    → apply_withdrawals today (payments_before p.created_at ps) ≡ ok b
    → (transform_office_withdrawal_record today p ps).available_balance ≡ b.available_balance
unfolding transform_office_withdrawal_record get_available_balance apply_withdrawals
office_balance_agrees today p ps b h e =
    let earned = total_office_earned_lem today p.created_at ps zero_fraction h in
    let taken = withdrawals_before_lem p.created_at ps (pos 0) in
    elim (Result-cases (total_deposits zero_fraction (payments_before p.created_at ps))) [
      | inl (sum, es) ↦ ground arith
      | inr (x, ex) ↦ absurd (ground arith)
    ]
