-- ===== src/Wallet/Limit.antt =====
-- The limit on the bank accounts of a host, and the payments that belong to the wallet.
use sojourn_backend.Prelude.{
  All-mapped, ℕ, ◌≤◌, ◌+◌, ◌≡◌, ◌≢◌, refl, subst, Bool, true, Option, none, some, List, [], ◌∷◌,
  map, length, All, All-map, All-every, holds, leb, ◌==◌, if◌then◌else◌, Bool-cases, Option-cases,
  ◌⊎◌, inl, inr, arith,
}
use sojourn_backend.Entities.{Account, Payment, Wallet}
use sojourn_backend.Orm.{Orm, HasKey}
use sojourn_backend.Orm.Saving.{save_rows, save_rows_replace, saved_is_found, HasKey-map}
use sojourn_backend.App.{World, ok}
use sojourn_backend.App.Transaction.{intercept-either}
use sojourn_backend.Wallet.Withdraw.{get_wallet_by_host_id}
use sojourn_backend.Wallet.Accounts.{
  WalletPayload, get_account_numbers_by_host_id, account_row, add_bank_account,
  delete_account_by_id, create_wallet, wallet_or_created, get_wallet, get_payments_by_host_id,
  save_payments, add_account_details, add_more_bank_accounts, AccountRequest, first_account,
  more_accounts, remove_account, serve_account, serve_accounts, wallet_key, with_wallet,
  get_wallet_by_id,
}

module _ (orm : Orm) where
  -- How many accounts a host has.
  abbrev pub accounts_of : ℕ → World → ℕ
  accounts_of host w = length (orm.find Account (λ a. a.host_id == host) w.accounts)

  accounts-add_bank_account :
      (host : ℕ) (x : Wallet) (payload : WalletPayload) (w : World)
      → accounts_of host (add_bank_account orm x payload w).1
        ≤ (if payload.host_id == host then 1 else 0) + accounts_of host w
  unfolding add_bank_account account_row
  accounts-add_bank_account host x payload w =
      orm.save_length Account (λ a. a.host_id == host) (λ a. a.id) _ w.accounts

  accounts-wallet_or_created :
      (host : ℕ) (w : World) → (wallet_or_created orm host w).1.accounts ≡ w.accounts
  unfolding wallet_or_created create_wallet get_wallet
  accounts-wallet_or_created host w = ground arith

  -- Either nothing is added, or one account by a host who has less than three.
  abbrev AddsWithinLimit : WalletPayload → World → World → Type 0
  AddsWithinLimit payload w w' =
      (w'.accounts ≡ w.accounts)
      ⊎ ((accounts_of payload.host_id w ≤ 2)
          × (x : Wallet) × (w'.accounts ≡ (add_bank_account orm x payload w).1.accounts))

  created : WalletPayload → World → Wallet
  created payload w = record {
    id = orm.generate Wallet (λ y. y.id) w.wallets;
    host_id = payload.host_id;
  }

  details-AddsWithinLimit :
      (payload : WalletPayload) (w : World)
      → AddsWithinLimit payload w (add_account_details orm payload w).1
  unfolding add_account_details get_account_numbers_by_host_id wallet_or_created create_wallet
      save_payments add_bank_account get_wallet created
  details-AddsWithinLimit payload w = elim (Bool-cases (leb 3 (accounts_of payload.host_id w))) [
    | inl full ↦ inl (ground arith)
    | inr free ↦ elim (Option-cases (get_wallet orm payload.host_id w)) [
      | inl e ↦ inr (ground arith, created payload w, ground arith)
      | inr (x, e) ↦ inr (ground arith, x, ground arith)
    ]
  ]

  more-AddsWithinLimit :
      (payload : WalletPayload) (w : World)
      → AddsWithinLimit payload w (add_more_bank_accounts orm payload w).1
  unfolding add_more_bank_accounts get_account_numbers_by_host_id wallet_or_created create_wallet
      save_payments add_bank_account get_wallet created
  more-AddsWithinLimit payload w = elim (Bool-cases (leb 3 (accounts_of payload.host_id w))) [
    | inl full ↦ inl (ground arith)
    | inr free ↦ elim (Option-cases (get_wallet orm payload.host_id w)) [
      | inl e ↦ inr (ground arith, created payload w, ground arith)
      | inr (x, e) ↦ inr (ground arith, x, ground arith)
    ]
  ]

  limited :
      (host : ℕ) (payload : WalletPayload) (w w' : World)
      → AddsWithinLimit payload w w'
      → accounts_of host w ≤ 3
      → accounts_of host w' ≤ 3
  limited host payload w w' (inl same) h = rw same h
  limited host payload w w' (inr (few, x, same)) h =
      let added = accounts-add_bank_account host x payload w in
      rw same (elim (Bool-cases (payload.host_id == host)) [
        | inl mine ↦
            let self : payload.host_id ≡ host = ground arith in
            let few' : accounts_of host w ≤ 2 = subst (λ i. accounts_of i w ≤ 2) self few in
            ground arith
        | inr other ↦ ground arith
      ])

  serve_account_limited :
      (host : ℕ) (r : AccountRequest) (w : World)
      → accounts_of host w ≤ 3
      → accounts_of host (serve_account orm r w) ≤ 3
  unfolding serve_account delete_account_by_id
  serve_account_limited host (first_account payload) w h =
      intercept-either (λ v. accounts_of host v ≤ 3) (add_account_details orm payload) w h
        (limited host payload w (add_account_details orm payload w).1
          (details-AddsWithinLimit payload w) h)
  serve_account_limited host (more_accounts payload) w h =
      limited host payload w (add_more_bank_accounts orm payload w).1
        (more-AddsWithinLimit payload w) h
  serve_account_limited host (remove_account i) w h =
      let fewer = orm.delete_length Account (λ a. a.host_id == host) (λ a. a.id == i) w.accounts in
      omega (arith, fewer)

  -- A host who has at most three bank accounts has at most three after any sequence of requests
  -- that add or remove accounts.
  pub limit_of_three_accounts :
      (host : ℕ) (rs : List AccountRequest) (w : World)
      → accounts_of host w ≤ 3
      → accounts_of host (serve_accounts orm rs w) ≤ 3
  unfolding serve_accounts
  limit_of_three_accounts host [] w h = h
  limit_of_three_accounts host (r ∷ rs) w h =
      limit_of_three_accounts host rs (serve_account orm r w) (serve_account_limited host r w h)

  -- The payments of a host belong to a wallet.
  abbrev pub BelongTo : Option Wallet → ℕ → List Payment → Type 0
  BelongTo x host = All (λ p. p.host_id ≡ some host → p.wallet_id ≡ wallet_key x)

  saved-BelongTo :
      (x : Option Wallet) (host : ℕ) (w : World)
      → BelongTo x host (
          save_rows orm
            (λ p. p.id)
            (map (with_wallet x) (get_payments_by_host_id orm host w))
            w.payments)
  unfolding get_payments_by_host_id
  saved-BelongTo x host w =
      save_rows_replace orm (λ p. p.id) (λ p. p.host_id ≡ some host → p.wallet_id ≡ wallet_key x)
        (map (with_wallet x) rows) w.payments
        (All-mapped (λ p. p.host_id ≡ some host → p.wallet_id ≡ wallet_key x) (with_wallet x) rows
          (All-every _ (λ p e. refl) rows))
        (All-map _ _ due w.payments (orm.find_complete Payment (λ p. p.id) clause w.payments))
    where
      clause : Payment → Bool
      clause p = holds p.host_id host

      rows : List Payment
      rows = orm.find Payment clause w.payments

      due :
          (p : Payment)
          → (clause p ≡ true → HasKey (λ y. y.id) p.id rows)
          → (p.host_id ≡ some host → p.wallet_id ≡ wallet_key x)
            ⊎ HasKey (λ y. y.id) p.id (map (with_wallet x) rows)
      due p k = elim (Bool-cases (clause p)) [
        | inl e ↦ inr (HasKey-map (λ y. y.id) (with_wallet x) p.id rows (λ r. refl) (k e))
        | inr e ↦ inl (λ same. absurd (ground arith))
      ]

  -- When account details are added, every payment of the host belongs to the wallet that is
  -- returned.
  pub account_details_link_payments :
      (payload : WalletPayload) (w w' : World) (x : Wallet)
      → add_account_details orm payload w ≡ (ok x, w')
      → All (λ p. p.host_id ≡ some payload.host_id → p.wallet_id ≡ some x.id) w'.payments
  unfolding add_account_details get_account_numbers_by_host_id wallet_or_created create_wallet
      save_payments add_bank_account get_wallet get_payments_by_host_id
  account_details_link_payments payload w w' x h =
      let same : w'.payments
          ≡ save_rows orm (λ p. p.id)
              (map (with_wallet (some x)) (get_payments_by_host_id orm payload.host_id w))
              w.payments =
        ground arith in
      rw same (saved-BelongTo (some x) payload.host_id w)

  -- The first read of the wallet of a host creates it, and returns nothing.
  pub first_wallet_read :
      (today host : ℕ) (w : World)
      → get_wallet orm host w ≡ none
      → ((get_wallet_by_id orm today host w).0 ≡ ok none)
        × ((get_wallet orm host (get_wallet_by_id orm today host w).1) ≢ none)
  unfolding get_wallet_by_id get_wallet_by_host_id create_wallet save_payments get_wallet
      get_payments_by_host_id
  first_wallet_read today host w h =
      let x : Wallet = record { id = orm.generate Wallet (λ y. y.id) w.wallets; host_id = host } in
      (
        ground arith,
        λ missing.
            saved_is_found orm (λ y. y.id) (λ y. y.host_id == host) x w.wallets (ground arith)
              (ground arith),
      )
