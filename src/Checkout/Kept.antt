-- ===== src/Checkout/Kept.antt =====
-- What no checkout changes: the referrals, and the credits that are confirmed.
use sojourn_backend.Prelude.{
  ℕ, ◌≡◌, ℤ, pos, ◌-ℤ◌, Bool, true, Option, none, some, List, All, All-map, arith, inl, inr,
}
use sojourn_backend.Entities.{Booking, Payment, SojournCredit, SojournCreditsType, is_confirmed}
use sojourn_backend.Orm.{Orm}
use sojourn_backend.App.{World, Result}
use sojourn_backend.Wallet.Credits.{AddSojournCredits, add_sojourn_credits, credit_row}
use sojourn_backend.Checkout.Pricing.{credits_earned, amount_due}
use sojourn_backend.Checkout.Validation.{CheckoutDto}
use sojourn_backend.Checkout.Initialize.{
  PaystackReply, Sale, record_sale, initialize_transaction, get_host_wallet_by_host_id,
  record_referal,
}
use sojourn_backend.Checkout.Crypto.{NowPayments, initialize_crypto_transaction}
use sojourn_backend.Checkout.Ends.{Ends, initialize-Ends, crypto-Ends}

module _ (orm : Orm) where
  referals-record_sale :
      (now : ℕ) (dto : CheckoutDto) (s : Sale) (w : World)
      → s.guest.referer_id ≡ none
      → (record_sale orm now dto s w).1.referals ≡ w.referals
  unfolding record_sale get_host_wallet_by_host_id record_referal add_sojourn_credits
  referals-record_sale now dto s w h = ground arith

  Ends-referals :
      {A : Type 0} (brackets : Bool) (now : ℕ) (dto : CheckoutDto) (w : World)
      (x : Result A × World)
      → Ends orm brackets now dto w x
      → x.1.referals ≡ w.referals
  Ends-referals brackets now dto w x (inl (e', bad, same)) = rw same
  Ends-referals brackets now dto w x (inr (s, r, v, i, d, never)) =
      rw d (referals-record_sale now dto s w r)

  -- No checkout, by card or in crypto, changes the table of referrals.
  pub checkout_records_no_referal :
      (paystack : ℤ → Option PaystackReply) (provider : NowPayments) (brackets : Bool) (now : ℕ)
      (dto : CheckoutDto) (w : World)
      → ((initialize_transaction orm paystack brackets now dto w).1.referals ≡ w.referals)
        × ((initialize_crypto_transaction orm provider brackets now dto w).1.referals ≡ w.referals)
  checkout_records_no_referal paystack provider brackets now dto w = (
    Ends-referals brackets now dto w _ (initialize-Ends orm paystack brackets now dto w),
    Ends-referals brackets now dto w _ (crypto-Ends orm provider brackets now dto w),
  )

  abbrev Confirmed : (SojournCredit → Type 0) → World → Type 0
  Confirmed P w = All (λ c. is_confirmed c.status ≡ true → P c) w.credits

  kept_row :
      (P : SojournCredit → Type 0) (v : AddSojournCredits) (t : List SojournCredit)
      → All (λ c. is_confirmed c.status ≡ true → P c) t
      → All
          (λ c. is_confirmed c.status ≡ true → P c)
          (orm.save SojournCredit (λ c. c.id) (credit_row orm v t) t)
  unfolding credit_row
  kept_row P v t h =
      orm.save_all SojournCredit (λ c. is_confirmed c.status ≡ true → P c) (λ c. c.id)
        (credit_row orm v t) t (λ e. absurd (ground arith))
        (All-map (λ c. is_confirmed c.status ≡ true → P c) _ (λ c p _. p) t h)

  spent : Sale → ℕ → AddSojournCredits
  spent s i = record {
    user_id = s.guest.id;
    amount = pos 0 -ℤ s.applied;
    booking_id = some i;
    credit_type = SojournCreditsType.outgoing;
    reference = s.payment_reference;
  }

  earned : Sale → ℕ → AddSojournCredits
  earned s i = record {
    user_id = s.guest.id;
    amount = credits_earned (amount_due s.base s.property.caution_fee s.applied);
    booking_id = some i;
    credit_type = SojournCreditsType.incoming;
    reference = s.payment_reference;
  }

  record_sale-Confirmed :
      (P : SojournCredit → Type 0) (now : ℕ) (dto : CheckoutDto) (s : Sale) (w : World)
      → Confirmed P w
      → Confirmed P (record_sale orm now dto s w).1
  unfolding record_sale get_host_wallet_by_host_id record_referal add_sojourn_credits spent earned
  record_sale-Confirmed P now dto s w h =
      let i = orm.generate Booking (λ x. x.id) w.bookings in
      let t = orm.save SojournCredit (λ c. c.id) (credit_row orm (spent s i) w.credits) w.credits in
      ground (
        arith,
        kept_row P (earned s i) w.credits h,
        kept_row P (earned s i) t (kept_row P (spent s i) w.credits h),
      )

  -- What holds of every row of confirmed credits before a checkout by card, which may fail, holds
  -- of every one after it.
  pub checkout_confirms_nothing :
      (P : SojournCredit → Type 0) (paystack : ℤ → Option PaystackReply) (brackets : Bool) (now : ℕ)
      (dto : CheckoutDto) (w : World)
      → All (λ c. is_confirmed c.status ≡ true → P c) w.credits
      → All
          (λ c. is_confirmed c.status ≡ true → P c)
          (initialize_transaction orm paystack brackets now dto w).1.credits
  checkout_confirms_nothing P paystack brackets now dto w h =
      settle (initialize_transaction orm paystack brackets now dto w)
        (initialize-Ends orm paystack brackets now dto w)
    where
      settle : (x : Result Payment × World) → Ends orm brackets now dto w x → Confirmed P x.1
      settle x (inl (e, bad, same)) = rw same h
      settle x (inr (s, r, v, i, d, never)) = rw d (record_sale-Confirmed P now dto s w h)
