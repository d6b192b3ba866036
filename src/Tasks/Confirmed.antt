-- ===== src/Tasks/Confirmed.antt =====
-- What the jobs on payments confirm.
use sojourn_backend.Prelude.{
  ℕ, ◌≡◌, ◌≢◌, refl, ◌∙◌, Bool, true, false, not, ◌&&◌, Option, none, some, List, [], ◌∷◌, All,
  All-map, All-zip, Option-cases, Bool-cases, inl, inr, ◌⊎◌, is_set, All-every, arith,
}
use sojourn_backend.Entities.{
  Booking, Payment, PaymentStatus, SojournCredit, SojournCreditsStatus, is_completed, is_confirmed,
  is_crypto,
}
use sojourn_backend.Orm.{Orm, where_eq}
use sojourn_backend.App.{World, Handler, promise_all, all_settled}
use sojourn_backend.Webhook.Confirm.{
  get_payment_by_reference, booking_of, save_payment, save_referal,
}
use sojourn_backend.Tasks.PaymentJobs.{
  confirm_crypto, handle_update_crypto_payments_to_paid, fulfilled, pay_referal, confirm_credit,
  get_single_sojourn_credit_by_reference, handle_update_payments,
}

-- What every call keeps, the whole keeps.
pub promise_all_keeps :
    {A : Type 0} (P : World → Type 0) (Q : A → Type 0) (xs : List A) (f : A → Handler (Unit {0}))
    (w : World)
    → ((x : A) (v : World) → Q x → P v → P (f x v).1)
    → All Q xs
    → P w
    → P (promise_all xs f w).1
unfolding promise_all
promise_all_keeps P Q [] f w step qs h = h
promise_all_keeps P Q (x ∷ xs) f w step qs h =
    promise_all_keeps P Q xs f (f x w).1 step qs.1 (step x w qs.0 h)

-- A row of the credits that no completed payment has the reference of.
abbrev pub IsUnpaid : List Payment → SojournCredit → Type 0
IsUnpaid ps c =
    All (λ p. is_completed p.payment_status ≡ true → p.paystack_reference ≢ some c.reference) ps

module _ (orm : Orm) where
  abbrev CompletedRow : ℕ → List Payment → Type 0
  CompletedRow i t = All (λ p. p.id ≡ i → is_completed p.payment_status ≡ true) t

  -- One call leaves the payments as they are, or saves one of them as completed.
  confirm_crypto-cases :
      (provider : Option ℕ → Option Bool) (booking : Option Booking) (t : Payment) (w : World)
      → ((confirm_crypto orm provider booking t w).1.payments ≡ w.payments)
        ⊎ ((p : Payment) × (provider t.paystack_reference ≡ some true)
            × ((confirm_crypto orm provider booking t w).1.payments
                ≡ orm.save Payment
                    (λ q. q.id)
                    (record p { payment_status = PaymentStatus.completed })
                    w.payments))
  unfolding confirm_crypto save_payment
  confirm_crypto-cases provider booking t w =
      elim (Option-cases (get_payment_by_reference orm t.paystack_reference w)) [
        | inl e ↦ inl (ground arith)
        | inr (p, e) ↦
            elim (Bool-cases (is_crypto t.payment_method && not (is_completed t.payment_status))) [
              | inr other ↦ inl (ground arith)
              | inl due ↦ elim (Option-cases booking) [
                | inl no_booking ↦ inl (ground arith)
                | inr (b, eb) ↦ elim (Bool-cases (is_set b.holding_window)) [
                  | inr over ↦ inl (ground arith)
                  | inl held ↦ elim (Option-cases (provider t.paystack_reference)) [
                    | inl silent ↦ inl (ground arith)
                    | inr (finished, ef) ↦ elim (Bool-cases finished) [
                      | inr waiting ↦ inl (ground arith)
                      | inl done ↦ inr (p, ground arith, ground arith)
                    ]
                  ]
                ]
              ]
            ]
      ]

  confirm_crypto-CompletedRow :
      (provider : Option ℕ → Option Bool) (i : ℕ) (booking : Option Booking) (t : Payment)
      (w : World)
      → CompletedRow i w.payments
      → CompletedRow i (confirm_crypto orm provider booking t w).1.payments
  confirm_crypto-CompletedRow provider i booking t w h =
      elim (confirm_crypto-cases provider booking t w) [
        | inl same ↦ rw same h
        | inr (p, done, saved) ↦ rw saved (
            orm.save_all Payment (λ q. q.id ≡ i → is_completed q.payment_status ≡ true) (λ q. q.id)
              (record p { payment_status = PaymentStatus.completed }) w.payments (λ same. refl)
              (All-map (λ q. q.id ≡ i → is_completed q.payment_status ≡ true) _ (λ q g _. g)
                w.payments h))
      ]

  -- The job on crypto payments never takes back that a payment is completed.
  pub crypto_job_keeps_completed :
      (provider : Option ℕ → Option Bool) (i : ℕ) (w : World)
      → All (λ p. p.id ≡ i → is_completed p.payment_status ≡ true) w.payments
      → All
          (λ p. p.id ≡ i → is_completed p.payment_status ≡ true)
          (handle_update_crypto_payments_to_paid orm provider w).1.payments
  unfolding handle_update_crypto_payments_to_paid
  crypto_job_keeps_completed provider i w h =
      promise_all_keeps (λ v. CompletedRow i v.payments) (λ _. Unit {0}) _ _ w
        (λ t v _ k. confirm_crypto-CompletedRow provider i (booking_of orm w t) t v k)
        (All-every _ (λ _. tt) _) h

  -- What holds of every row of a list of which it is the rows' own list.
  every_of_list :
      (R : Payment → SojournCredit → Type 0) (ts : List Payment)
      → All (λ t. (c : SojournCredit) → All (λ p. R p c) ts → R t c) ts
  every_of_list R [] = tt
  every_of_list R (t ∷ ts) = (
    λ c h. h.0,
    All-map (λ x. (c : SojournCredit) → All (λ p. R p c) ts → R x c) _ (λ x g c h. g c h.1) ts
        (every_of_list R ts),
  )

  fulfilled-All :
      (Q : Payment → Type 0) (ts : List Payment)
      → All (λ t. is_completed t.payment_status ≡ true → Q t) ts
      → All Q (fulfilled ts)
  unfolding fulfilled
  fulfilled-All Q [] h = tt
  fulfilled-All Q (t ∷ ts) h = elim (Bool-cases (is_completed t.payment_status)) [
    | inl e ↦ rw e (h.0 e, fulfilled-All Q ts h.1)
    | inr e ↦ rw e (fulfilled-All Q ts h.1)
  ]

  -- A payment that has a reference, and that of no unpaid credit.
  abbrev Pays : List Payment → Payment → Type 0
  Pays ps t =
      (t.paystack_reference ≢ none)
      × ((c : SojournCredit) → IsUnpaid ps c → t.paystack_reference ≢ some c.reference)

  fulfilled-Pays :
      (ps : List Payment)
      → All (λ p. is_completed p.payment_status ≡ true → p.paystack_reference ≢ none) ps
      → All (Pays ps) (fulfilled (orm.find Payment (λ p. true) ps))
  fulfilled-Pays ps refs = fulfilled-All (Pays ps) _ (
      orm.find_keeps Payment _ _ ps (
        All-zip (λ p. is_completed p.payment_status ≡ true → p.paystack_reference ≢ none)
          (λ t.
            (c : SojournCredit)
            → IsUnpaid ps c
            → is_completed t.payment_status ≡ true
            → t.paystack_reference ≢ some c.reference)
          (λ t. is_completed t.payment_status ≡ true → Pays ps t)
          (λ t has own done. (has done, λ c unpaid. own c unpaid done)) ps refs
          (every_of_list
            (λ p c. is_completed p.payment_status ≡ true → p.paystack_reference ≢ some c.reference)
            ps)))

  abbrev Unconfirmed : List Payment → List SojournCredit → Type 0
  Unconfirmed ps t = All (λ c. IsUnpaid ps c → is_confirmed c.status ≡ false) t

  found_reference :
      (t : Payment) (c : SojournCredit) (w : World)
      → t.paystack_reference ≢ none
      → get_single_sojourn_credit_by_reference orm t.paystack_reference w ≡ some c
      → t.paystack_reference ≡ some c.reference
  unfolding get_single_sojourn_credit_by_reference
  found_reference t c w has e =
      let hit : (where_eq orm (some c.reference) t.paystack_reference
            && not (is_confirmed c.status))
          ≡ true =
        orm.find_one_sound SojournCredit _ w.credits c e in
      ground arith

  confirm_credit-Unconfirmed :
      (ps : List Payment) (t : Payment) (w : World)
      → Pays ps t
      → Unconfirmed ps w.credits
      → Unconfirmed ps (confirm_credit orm t w).1.credits
  unfolding confirm_credit
  confirm_credit-Unconfirmed ps t w pays h =
      elim (Option-cases (get_single_sojourn_credit_by_reference orm t.paystack_reference w)) [
        | inl e ↦ rw (e, confirm_credit) h
        | inr (c, e) ↦
            rw (e, confirm_credit)
              (orm.save_all SojournCredit (λ x. IsUnpaid ps x → is_confirmed x.status ≡ false)
                (λ x. x.id) (record c { status = SojournCreditsStatus.confirmed }) w.credits
                (λ unpaid. absurd (pays.1 c unpaid (found_reference t c w pays.0 e)))
                (All-map (λ x. IsUnpaid ps x → is_confirmed x.status ≡ false) _ (λ x g _. g)
                  w.credits h))
      ]

  credits-pay_referal : (t : Payment) (w : World) → (pay_referal orm t w).1.credits ≡ w.credits
  unfolding pay_referal save_referal
  credits-pay_referal t w = ground arith

  -- If every completed payment has a reference, the job on all payments confirms no credit whose
  -- reference is of no completed payment.
  pub update_payments_confirms_paid :
      (w : World)
      → All (λ p. is_completed p.payment_status ≡ true → p.paystack_reference ≢ none) w.payments
      → All (λ c. IsUnpaid w.payments c → is_confirmed c.status ≡ false) w.credits
      → All
          (λ c. IsUnpaid w.payments c → is_confirmed c.status ≡ false)
          (handle_update_payments orm w).1.credits
  unfolding handle_update_payments all_settled
  update_payments_confirms_paid w refs h =
      promise_all_keeps (λ v. Unconfirmed w.payments v.credits) (Pays w.payments) ts
        (confirm_credit orm) w' (confirm_credit-Unconfirmed w.payments)
        (fulfilled-Pays w.payments refs) (rw same h)
    where
      ts : List Payment
      ts = fulfilled (orm.find Payment (λ p. true) w.payments)

      w' : World
      w' = (promise_all ts (pay_referal orm) w).1

      same : w'.credits ≡ w.credits
      same =
          promise_all_keeps (λ v. v.credits ≡ w.credits) (λ _. Unit {0}) ts (pay_referal orm) w
            (λ t v _ k. credits-pay_referal t v ∙ k) (All-every _ (λ _. tt) ts) refl
