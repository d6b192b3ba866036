-- ===== src/Referals/Limit.antt =====
-- What a referrer can ask for.
use sojourn_backend.Prelude.{
  ◌≡◌, true, none, some, All, All-map, Bool-cases, inl, inr, ltb_ℤ, arith,
}
use sojourn_backend.Entities.{
  Referal, ReferalStatus, ReferalTransactionStatus, ReferalType, is_paid,
}
use sojourn_backend.Orm.{Orm}
use sojourn_backend.App.{World}
use sojourn_backend.Referals.Requests.{
  AddReferal, AddWithdrawalRequest, add_referal, add_withdrawal_request, ensure_account,
  get_referal_by_user, referal_row,
}

-- The row that a request asks for.
requested : AddWithdrawalRequest → AddReferal
requested dto = record {
  referer_id = dto.referer_id;
  user_id = some dto.user_id;
  booking_id = none;
  amount = dto.amount;
  payment_status = ReferalTransactionStatus.debit;
  paystack_status = ReferalStatus.unpaid;
  payment_type = ReferalType.outgoing;
  reference = none;
}

module _ (orm : Orm) where
  referals-ensure_account :
      (dto : AddWithdrawalRequest) (w : World) → (ensure_account orm dto w).1.referals ≡ w.referals
  unfolding ensure_account
  referals-ensure_account dto w = ground arith

  request-add_referal :
      (dto : AddWithdrawalRequest) (w : World)
      → add_withdrawal_request orm dto w
        ≡ add_referal orm (requested dto) (ensure_account orm dto w).1
  unfolding add_withdrawal_request ensure_account requested
  request-add_referal dto w = ground arith

  -- What holds of every row of paid referrals before a request to withdraw, which may fail, holds
  -- of every one after it.
  pub referal_request_pays_nothing :
      (P : Referal → Type 0) (dto : AddWithdrawalRequest) (w : World)
      → All (λ r. is_paid r.paystack_status ≡ true → P r) w.referals
      → All
          (λ r. is_paid r.paystack_status ≡ true → P r)
          (add_withdrawal_request orm dto w).1.referals
  unfolding add_referal requested referal_row
  referal_request_pays_nothing P dto w h =
      let w' = (ensure_account orm dto w).1 in
      let kept : All (λ r. is_paid r.paystack_status ≡ true → P r) w'.referals =
        rw (referals-ensure_account dto w) h in
      let saved =
        orm.save_all Referal (λ r. is_paid r.paystack_status ≡ true → P r) (λ r. r.id)
          (referal_row orm (requested dto) w'.referals) w'.referals (λ e. absurd (ground arith))
          (All-map (λ r. is_paid r.paystack_status ≡ true → P r) _ (λ r g _. g) w'.referals kept) in
      rw (request-add_referal dto w)
        (elim (Bool-cases (ltb_ℤ (get_referal_by_user orm dto.referer_id w') dto.amount)) [
          | inl low ↦ rw low kept
          | inr enough ↦ rw enough saved
        ])
