-- ===== src/Webhook/Settled.antt =====
-- What a confirmed or refused payment does to its rows.
use sojourn_backend.Prelude.{
  All-mapped, ℕ, ◌≡◌, refl, Bool, true, false, none, some, Option, List, All, All-map, All-every,
  map, Bool-cases, ◌⊎◌, inl, inr, ◌==◌, arith,
}
use sojourn_backend.Entities.{Booking, Payment, Property, User, Host, SojournCredit}
use sojourn_backend.Orm.{Orm, HasKey, where_eq}
use sojourn_backend.Orm.Saving.{save_rows, save_rows_replace, HasKey-map}
use sojourn_backend.App.{World, ok, err, Exception}
use sojourn_backend.Webhook.Confirm.{
  settle_payment, emit_confirmation, save_credits, save_payment, save_referal, with_status,
  payment_status_of, credit_status_of, get_sojourn_credits_by_reference,
  get_referal_by_user_reference, get_payment_by_reference, verify_transaction, booking_of, user_of,
  host_of,
}

module _ (orm : Orm) where
  abbrev HasStatus : Bool → ℕ → SojournCredit → Type 0
  HasStatus success ref c = c.reference ≡ ref → c.status ≡ credit_status_of success

  credits_settled :
      (success : Bool) (ref : ℕ) (w : World)
      → All (HasStatus success ref) (
          save_rows orm
            (λ c. c.id)
            (map (with_status success) (get_sojourn_credits_by_reference orm (some ref) w))
            w.credits)
  unfolding get_sojourn_credits_by_reference
  credits_settled success ref w =
      save_rows_replace orm (λ c. c.id) (HasStatus success ref) (map (with_status success) rows)
        w.credits
        (All-mapped (HasStatus success ref) (with_status success) rows
          (All-every _ (λ c e. refl) rows))
        (All-map _ _ due w.credits (orm.find_complete SojournCredit (λ c. c.id) clause w.credits))
    where
      clause : SojournCredit → Bool
      clause c = where_eq orm (some c.reference) (some ref)

      rows : List SojournCredit
      rows = orm.find SojournCredit clause w.credits

      due :
          (c : SojournCredit)
          → (clause c ≡ true → HasKey (λ x. x.id) c.id rows)
          → HasStatus success ref c ⊎ HasKey (λ x. x.id) c.id (map (with_status success) rows)
      due c k = elim (Bool-cases (clause c)) [
        | inl e ↦ inr (HasKey-map (λ x. x.id) (with_status success) c.id rows (λ r. refl) (k e))
        | inr e ↦ inl (λ same. absurd (ground arith))
      ]

  -- When `updatePayment` settles a transaction, the payment is saved with the status of the
  -- charge, every credit with its reference has that status, and the answer says whether the
  -- charge was a success.
  pub settle_payment_effect :
      (success flag : Bool) (p : Payment) (ref : ℕ) (w w' : World)
      → settle_payment orm success p ref w ≡ (ok flag, w')
      → (flag ≡ success)
        × (w'.payments
            ≡ orm.save Payment
                (λ x. x.id)
                (record p { payment_status = payment_status_of success })
                w.payments)
        × All (λ c. c.reference ≡ ref → c.status ≡ credit_status_of success) w'.credits
  unfolding settle_payment emit_confirmation save_credits save_payment save_referal
  settle_payment_effect success flag p ref w w' h =
      let settled = credits_settled success ref w in (ground arith, ground arith, ground arith)

  -- When the settling of a transaction fails, it has written nothing and sent no mail.
  pub settle_fails_unchanged :
      (success : Bool) (p : Payment) (ref : ℕ) (w : World) (e : Exception)
      → (settle_payment orm success p ref w).0 ≡ err e
      → (settle_payment orm success p ref w).1 ≡ w
  unfolding settle_payment emit_confirmation save_credits save_payment save_referal
  settle_fails_unchanged success p ref w e h = ground arith

  pub settle_returns :
      (p : Payment) (ref : ℕ) (w : World) (b : Booking) (property : Property) (user : User)
      (host : Host)
      → booking_of orm w p ≡ some b
      → orm.find_one Property (λ x. x.id == b.property_id) w.properties ≡ some property
      → user_of orm w p ≡ some user
      → user.has_profile ≡ true
      → host_of orm w p ≡ some host
      → ((settle_payment orm true p ref w).0 ≡ ok true)
        × ((settle_payment orm false p ref w).0 ≡ ok false)
  unfolding settle_payment emit_confirmation save_credits save_payment save_referal
  settle_returns p ref w b property user host eb ep eu profile eh = (ground arith, ground arith)

  -- The verification of a payment that Paystack answers for fails with a TypeError and writes
  -- nothing when no referral has the reference of the answer.
  pub verify_without_referal_fails :
      (provider : Option ℕ → Option (Bool × ℕ)) (ref answered : ℕ) (success : Bool) (p : Payment)
      (w : World)
      → get_payment_by_reference orm (some ref) w ≡ some p
      → provider p.paystack_reference ≡ some (success, answered)
      → get_referal_by_user_reference orm (some answered) w ≡ none
      → verify_transaction orm provider ref w ≡ (err Exception.type_error, w)
  unfolding verify_transaction
  verify_without_referal_fails provider ref answered success p w ep ea er = ground arith
