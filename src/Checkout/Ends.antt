-- ===== src/Checkout/Ends.antt =====
-- How a checkout ends, and what it leaves alone.
use sojourn_backend.Prelude.{
  ℕ, ◌≡◌, refl, ℤ, Bool, true, Option, none, ◌==◌, arith, Option-cases, Bool-cases, ◌⊎◌, ◌≢◌, inl,
  inr,
}
use sojourn_backend.Entities.{Payment, Property, User, Host}
use sojourn_backend.Orm.{Orm}
use sojourn_backend.App.{World, Result, ok, err, Exception, Result-cases}
use sojourn_backend.Checkout.Pricing.{amount_due, in_kobo}
use sojourn_backend.Checkout.Validation.{CheckoutDto, validate_checkout, world-validate_checkout}
use sojourn_backend.Checkout.Initialize.{
  PaystackReply, Sale, card_sale, record_sale, price_stay, initialize_transaction,
}
use sojourn_backend.Checkout.Crypto.{
  crypto_sale, NowPayments, initialize_crypto_transaction, request_crypto_payment,
}
use sojourn_backend.Checkout.Recorded.{record_sale-Records, seen, stay_base, stay_credits}

module _ (orm : Orm) where
  -- How a checkout ends: with an exception and the world as it was, or as a sale is recorded
  -- whose checks have passed. The guest of the sale has no referrer, since the column is not among
  -- those that are read.
  abbrev pub Ends : {A : Type 0} → Bool → ℕ → CheckoutDto → World → Result A × World → Type 0
  Ends brackets now dto w (r, w') =
      ((e : Exception) × (r ≡ err e) × (w' ≡ w))
      ⊎ ((s : Sale) × (s.guest.referer_id ≡ none)
          × ((validate_checkout orm brackets now dto w).0 ≡ ok tt)
          × (s.property.id ≡ dto.property_id)
          × (w' ≡ (record_sale orm now dto s w).1)
          × ((e : Exception) → r ≢ err e))

  record_sale_ok :
      (now : ℕ) (dto : CheckoutDto) (s : Sale) (w : World)
      → (p : Payment) × ((record_sale orm now dto s w).0 ≡ ok p)
  record_sale_ok now dto s w = let r = record_sale-Records orm now dto s w in (r.0, r.1)

  -- The property, the guest and the sums are read without a write.
  price_stay-cases :
      (dto : CheckoutDto) (w : World)
      → ((e : Exception) × (price_stay orm dto w ≡ (err e, w)))
        ⊎ ((property : Property) × (guest : User) × (host : Host) × (base : ℕ) × (applied : ℤ)
            × (guest.referer_id ≡ none)
            × (property.id ≡ dto.property_id)
            × (price_stay orm dto w ≡ (ok (property, guest, host, base, applied), w)))
  unfolding price_stay
  price_stay-cases dto w =
      elim (Option-cases (orm.find_one Property (λ p. p.id == dto.property_id) w.properties)) [
        | inl no_property ↦ inl (Exception.type_error, ground arith)
        | inr (property, ep) ↦
            elim (Option-cases (orm.find_one User (λ u. u.id == dto.user_id) w.users)) [
              | inl no_user ↦ inl (Exception.type_error, ground arith)
              | inr (user, eu) ↦
                  elim (Option-cases (orm.find_one Host (λ h. h.id == property.host_id) w.hosts)) [
                    | inl no_host ↦ inl (Exception.type_error, ground arith)
                    | inr (host, eh) ↦
                        let hit : (property.id == dto.property_id) ≡ true =
                          orm.find_one_sound Property _ w.properties property ep in
                        inr (
                          property,
                          seen orm user,
                          host,
                          stay_base orm dto property,
                          stay_credits orm dto user w,
                          refl,
                          ground arith,
                          ground arith,
                        )
                  ]
            ]
      ]

  world-request :
      (provider : NowPayments) (total : ℤ) (w : World)
      → (request_crypto_payment orm provider total w).1 ≡ w
  unfolding request_crypto_payment
  world-request provider total w = ground arith

  pub initialize-Ends :
      (paystack : ℤ → Option PaystackReply) (brackets : Bool) (now : ℕ) (dto : CheckoutDto)
      (w : World)
      → Ends brackets now dto w (initialize_transaction orm paystack brackets now dto w)
  unfolding initialize_transaction card_sale
  initialize-Ends paystack brackets now dto w =
      let same = world-validate_checkout orm brackets now dto w in
      elim (Result-cases (validate_checkout orm brackets now dto w).0) [
        | inr (e, bad) ↦ inl (e, ground arith, ground arith)
        | inl (tt, valid) ↦ elim (price_stay-cases dto w) [
          | inl (e, bad) ↦ inl (e, ground arith, ground arith)
          | inr (property, guest, host, base, applied, no_referer, right, priced) ↦
              elim (Option-cases
                (paystack (in_kobo (amount_due base property.caution_fee applied)))) [
                  | inl no_reply ↦ inl (Exception.provider_error, ground arith, ground arith)
                  | inr (reply, er) ↦ elim (Bool-cases reply.status) [
                    | inr refused ↦ inl (Exception.provider_refused, ground arith, ground arith)
                    | inl accepted ↦
                        let s = card_sale property guest host base applied reply in
                        let done = record_sale_ok now dto s w in
                        inr (s, no_referer, valid, right, ground arith, λ e. ground arith)
                  ]
                ]
        ]
      ]

  pub crypto-Ends :
      (provider : NowPayments) (brackets : Bool) (now : ℕ) (dto : CheckoutDto) (w : World)
      → Ends brackets now dto w (initialize_crypto_transaction orm provider brackets now dto w)
  unfolding initialize_crypto_transaction crypto_sale
  crypto-Ends provider brackets now dto w =
      let same = world-validate_checkout orm brackets now dto w in
      elim (Result-cases (validate_checkout orm brackets now dto w).0) [
        | inr (e, bad) ↦ inl (e, ground arith, ground arith)
        | inl (tt, valid) ↦ elim (price_stay-cases dto w) [
          | inl (e, bad) ↦ inl (e, ground arith, ground arith)
          | inr (property, guest, host, base, applied, no_referer, right, priced) ↦
              let total = amount_due base property.caution_fee applied in
              let unread = world-request provider total w in
              elim (Result-cases (request_crypto_payment orm provider total w).0) [
                | inr (e, bad) ↦ inl (e, ground arith, ground arith)
                | inl (reply, asked) ↦
                    let s = crypto_sale property guest host base applied reply in
                    let done = record_sale_ok now dto s w in
                    inr (s, no_referer, valid, right, ground arith, λ e. ground arith)
              ]
        ]
      ]

  Ends-unchanged :
      {A : Type 0} (brackets : Bool) (now : ℕ) (dto : CheckoutDto) (w : World)
      (x : Result A × World) (e : Exception)
      → Ends brackets now dto w x
      → x.0 ≡ err e
      → x.1 ≡ w
  Ends-unchanged brackets now dto w x e (inl (e', bad, same)) h = same
  Ends-unchanged brackets now dto w x e (inr (s, r, v, i, d, never)) h = absurd (never e h)

  -- A checkout by card that fails has written nothing, also without the transaction around it.
  pub initialize_fails_unchanged :
      (paystack : ℤ → Option PaystackReply) (brackets : Bool) (now : ℕ) (dto : CheckoutDto)
      (w : World) (e : Exception)
      → (initialize_transaction orm paystack brackets now dto w).0 ≡ err e
      → (initialize_transaction orm paystack brackets now dto w).1 ≡ w
  initialize_fails_unchanged paystack brackets now dto w e =
      Ends-unchanged brackets now dto w _ e (initialize-Ends paystack brackets now dto w)

  -- A crypto checkout that fails has written nothing.
  pub crypto_fails_unchanged :
      (provider : NowPayments) (brackets : Bool) (now : ℕ) (dto : CheckoutDto) (w : World)
      (e : Exception)
      → (initialize_crypto_transaction orm provider brackets now dto w).0 ≡ err e
      → (initialize_crypto_transaction orm provider brackets now dto w).1 ≡ w
  crypto_fails_unchanged provider brackets now dto w e =
      Ends-unchanged brackets now dto w _ e (crypto-Ends provider brackets now dto w)
