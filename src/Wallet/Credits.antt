-- ===== src/Wallet/Credits.antt =====
-- Sojourn credits: src/repositories/credits.repository.ts, `calculateTotalCredits` of
-- src/utils/wallet-utils.ts and `transferSojournCredits` of src/wallet/wallet.service.ts.
use sojourn_backend.Prelude.{
  ℕ, ◌≡◌, ◌↔◌, inl, inr, ℤ, pos, ◌+ℤ◌, ◌-ℤ◌, ◌≤ℤ◌, ltb_ℤ, leb_ℤ, true, ◌&&◌, Option, none, some,
  List, [], ◌∷◌, All, All-map, ◌==◌, Option-cases, arith, int_laws,
}
use sojourn_backend.Entities.{
  SojournCredit, SojournCreditsStatus, SojournCreditsType, User, is_confirmed,
}
use sojourn_backend.Orm.{Orm}
use sojourn_backend.App.{
  World, Handler, ok, Exception, ◌>>=◌, ◌>>◌, gets, modify, or_throw, throw_if, set_credits,
}

-- `reduce((prev, curr) => (curr.amount += prev), 0)`
total_from : ℤ → List SojournCredit → ℤ
total_from prev [] = prev
total_from prev (c ∷ cs) = total_from (c.amount +ℤ prev) cs

unfoldable pub calculate_total_credits : List SojournCredit → ℤ
unfolding total_from
calculate_total_credits = total_from (pos 0)

-- The values of `AddSojournCredits`; the columns that it leaves out take their defaults.
pub record AddSojournCredits : Type 0 where
  pub user_id : ℕ
  pub amount : ℤ
  pub booking_id : Option ℕ
  pub credit_type : SojournCreditsType
  pub reference : ℕ

pub record TransferDto : Type 0 where
  pub user_id : ℕ
  pub to : ℕ
  pub amount : ℤ

-- The two records of a transfer.
unfoldable pub debit : TransferDto → User → AddSojournCredits
debit dto sender = record {
  user_id = sender.id;
  amount = pos 0 -ℤ dto.amount;
  booking_id = none;
  credit_type = SojournCreditsType.outgoing;
  reference = dto.to;
}

unfoldable pub credit : TransferDto → User → User → AddSojournCredits
credit dto sender recipient = record {
  user_id = recipient.id;
  amount = dto.amount;
  booking_id = none;
  credit_type = SojournCreditsType.incoming;
  reference = sender.id;
}

module _ (orm : Orm) where
  unfoldable pub get_total_sojourn_credits_by_user_id : ℕ → World → ℤ
  unfolding calculate_total_credits
  get_total_sojourn_credits_by_user_id user w =
      calculate_total_credits
        (orm.find SojournCredit (λ c. (c.user_id == user) && is_confirmed c.status) w.credits)

  -- The row that `create` makes: its status is the column's default, PENDING.
  unfoldable pub credit_row : AddSojournCredits → List SojournCredit → SojournCredit
  credit_row v t = record {
    id = orm.generate SojournCredit (λ c. c.id) t;
    user_id = v.user_id;
    booking_id = v.booking_id;
    amount = v.amount;
    reference = v.reference;
    status = SojournCreditsStatus.pending;
    credit_type = v.credit_type;
  }

  unfoldable pub add_sojourn_credits : AddSojournCredits → Handler (Unit {0})
  unfolding credit_row
  add_sojourn_credits v =
      modify
        λ w. set_credits (orm.save SojournCredit (λ c. c.id) (credit_row v w.credits) w.credits) w

  -- `transferSojournCredits`, without the cookies that are cleared for an unknown sender.
  unfoldable pub transfer_sojourn_credits : TransferDto → Handler (Unit {0})
  unfolding add_sojourn_credits
  transfer_sojourn_credits dto = do
    recipient ←
        or_throw (← gets λ w. orm.find_one User (λ u. u.email == dto.to) w.users)
          Exception.recipient_not_found
    sender ←
        or_throw (← gets λ w. orm.find_one User (λ u. u.id == dto.user_id) w.users)
          Exception.sender_not_found
    total ← gets (get_total_sojourn_credits_by_user_id dto.user_id)
    throw_if (leb_ℤ total (pos 0)) Exception.balance_empty
    throw_if (ltb_ℤ total dto.amount) Exception.balance_too_low
    add_sojourn_credits (debit dto sender)
    add_sojourn_credits (credit dto sender recipient)

-- The reference: a sum over the rows.
abbrev pub sum_credits : List SojournCredit → ℤ
sum_credits [] = pos 0
sum_credits (c ∷ cs) = c.amount +ℤ sum_credits cs

total_from-sum : (prev : ℤ) (cs : List SojournCredit) → total_from prev cs ≡ prev +ℤ sum_credits cs
unfolding total_from
total_from-sum prev [] = omega int_laws
total_from-sum prev (c ∷ cs) = rw (total_from-sum (c.amount +ℤ prev) cs) (omega int_laws)

-- The total that `calculateTotalCredits` reduces to is the sum of the amounts.
pub total-eq-sum_credits : (cs : List SojournCredit) → calculate_total_credits cs ≡ sum_credits cs
unfolding calculate_total_credits
total-eq-sum_credits cs = rw (total_from-sum (pos 0) cs) (omega int_laws)

module _ (orm : Orm) where
  -- A transfer of credits between two existing users goes through exactly when the confirmed total
  -- of the sender is positive and the amount is at most that total.
  pub transfer_accepted_iff :
      (dto : TransferDto) (w : World) (recipient sender : User)
      → orm.find_one User (λ u. u.email == dto.to) w.users ≡ some recipient
      → orm.find_one User (λ u. u.id == dto.user_id) w.users ≡ some sender
      → let total = get_total_sojourn_credits_by_user_id orm dto.user_id w in
        ((transfer_sojourn_credits orm dto w).0 ≡ ok tt)
        ↔ ((pos 1 ≤ℤ total) × (dto.amount ≤ℤ total))
  unfolding transfer_sojourn_credits
  transfer_accepted_iff dto w recipient sender r s = ground arith

  pub saved_pending :
      (P : SojournCredit → Type 0) (v : AddSojournCredits) (w : World)
      → All (λ c. is_confirmed c.status ≡ true → P c) w.credits
      → All (λ c. is_confirmed c.status ≡ true → P c) (add_sojourn_credits orm v w).1.credits
  unfolding add_sojourn_credits
  saved_pending P v w h =
      orm.save_all SojournCredit (λ c. is_confirmed c.status ≡ true → P c) (λ c. c.id)
        (credit_row orm v w.credits) w.credits (λ e. absurd (ground arith))
        (All-map (λ c. is_confirmed c.status ≡ true → P c) _ (λ c p _. p) w.credits h)

  -- What holds of every row of confirmed credits before a transfer, which may fail, holds of every
  -- one after it.
  pub transfer_confirms_nothing :
      (P : SojournCredit → Type 0) (dto : TransferDto) (w : World)
      → All (λ c. is_confirmed c.status ≡ true → P c) w.credits
      → All (λ c. is_confirmed c.status ≡ true → P c) (transfer_sojourn_credits orm dto w).1.credits
  unfolding transfer_sojourn_credits
  transfer_confirms_nothing P dto w h =
      elim (Option-cases (orm.find_one User (λ u. u.email == dto.to) w.users)) [
        | inl e ↦ ground arith
        | inr (r, e) ↦ elim (Option-cases (orm.find_one User (λ u. u.id == dto.user_id) w.users)) [
          | inl f ↦ ground arith
          | inr (s, f) ↦
              let once = saved_pending P (debit dto s) w h in
              ground (
                arith,
                saved_pending P (credit dto s r) (add_sojourn_credits orm (debit dto s) w).1 once,
              )
        ]
      ]
