-- ===== src/Referals/Requests.antt =====
-- The balance of a referrer, and the requests to withdraw from it: `getReferalByUser`,
-- `addReferal`, `addWithdrawalRequest`, and `calculateReferalBalance` of src/utils/user-utils.ts.
use sojourn_backend.Prelude.{
  ℕ, ℤ, pos, ◌+ℤ◌, ltb_ℤ, Bool, true, false, ◌&&◌, Option, none, some, List, [], ◌∷◌, ◌==◌,
  if◌then◌else◌,
}
use sojourn_backend.Entities.{
  Referal, ReferalStatus, ReferalTransactionStatus, ReferalType, UserAccount, is_paid,
}
use sojourn_backend.Orm.{Orm}
use sojourn_backend.App.{
  World, Handler, ok, Exception, ◌>>=◌, ◌>>◌, pure, gets, throw_if, modify, set_referals,
}

-- The argument of `addReferal`.
pub record AddReferal : Type 0 where
  pub referer_id : ℕ
  pub user_id : Option ℕ
  pub booking_id : Option ℕ
  pub amount : ℤ
  pub payment_status : ReferalTransactionStatus
  pub paystack_status : ReferalStatus
  pub payment_type : ReferalType
  pub reference : Option ℕ

pub record AddWithdrawalRequest : Type 0 where
  pub user_id : ℕ
  pub referer_id : ℕ
  pub amount : ℤ
  pub bank_name : ℕ
  pub bank_account_number : ℕ

-- `balance += d.amount`, for each row
unfoldable pub add_amounts : ℤ → List Referal → ℤ
add_amounts balance [] = balance
add_amounts balance (d ∷ ds) = add_amounts (balance +ℤ d.amount) ds

unfoldable pub calculate_referal_balance : List Referal → ℤ
unfolding add_amounts
calculate_referal_balance ds =
    let balance = add_amounts (pos 0) ds in if ltb_ℤ balance (pos 0) then pos 0 else balance

abbrev is_outgoing : ReferalType → Bool
is_outgoing ReferalType.outgoing = true
is_outgoing ReferalType.incoming = false

module _ (orm : Orm) where
  -- The balance of `getReferalByUser`
  unfoldable pub get_referal_by_user : ℕ → World → ℤ
  unfolding calculate_referal_balance
  get_referal_by_user user w =
      calculate_referal_balance
        (orm.find Referal (λ r. (r.referer_id == user) && is_paid r.paystack_status) w.referals)

  unfoldable pub referal_row : AddReferal → List Referal → Referal
  referal_row v t = record {
    id = orm.generate Referal (λ r. r.id) t;
    referer_id = v.referer_id;
    user_id = v.user_id;
    booking_id = v.booking_id;
    amount = v.amount;
    payment_status = v.payment_status;
    paystack_status = v.paystack_status;
    payment_type = v.payment_type;
    reference = v.reference;
  }

  unfoldable pub add_referal : AddReferal → Handler Referal
  unfolding referal_row
  add_referal v = do
    balance ← gets (get_referal_by_user v.referer_id)
    throw_if (is_outgoing v.payment_type && ltb_ℤ balance v.amount) Exception.insufficient_balance
    row ← gets λ w. referal_row v w.referals
    modify λ w. set_referals (orm.save Referal (λ r. r.id) row w.referals) w
    pure row

  -- `createUserAccount`, for a user who has none
  unfoldable pub ensure_account : AddWithdrawalRequest → Handler (Unit {0})
  ensure_account dto w =
      elim (orm.find_one UserAccount (λ a. a.user_id == dto.user_id) w.user_accounts) [
        | some a ↦ (ok tt, w)
        | none ↦ (
          ok tt,
          record w {
            user_accounts =
                orm.save UserAccount (λ a. a.id)
                  (record {
                    id = orm.generate UserAccount (λ a. a.id) w.user_accounts;
                    user_id = dto.user_id;
                    bank_name = dto.bank_name;
                    bank_account_number = dto.bank_account_number;
                  })
                  w.user_accounts;
          },
        )
      ]

  unfoldable pub add_withdrawal_request : AddWithdrawalRequest → Handler Referal
  unfolding ensure_account add_referal
  add_withdrawal_request dto = do
    ensure_account dto
    add_referal (record {
      referer_id = dto.referer_id;
      user_id = some dto.user_id;
      booking_id = none;
      amount = dto.amount;
      payment_status = ReferalTransactionStatus.debit;
      paystack_status = ReferalStatus.unpaid;
      payment_type = ReferalType.outgoing;
      reference = none;
    })
