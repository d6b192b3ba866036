-- ===== src/Wallet/Accounts.antt =====
-- The bank accounts of a host: `addAccountDetails`, `addMoreBankAccounts`, `deleteAccountById`,
-- `getWalletById` and `savePayments` of src/wallet/wallet.service.ts, with
-- src/repositories/account.repository.ts and what they call of the repositories of wallets and
-- payments.
use sojourn_backend.Prelude.{ℕ, Option, none, some, List, [], ◌∷◌, map, length, holds, leb, ◌==◌}
use sojourn_backend.Entities.{Account, Payment, Wallet}
use sojourn_backend.Orm.{Orm}
use sojourn_backend.Orm.Saving.{save_rows}
use sojourn_backend.App.{
  World, Handler, ok, Exception, ◌>>=◌, ◌>>◌, pure, gets, modify, throw_if, set_payments,
}
use sojourn_backend.App.Transaction.{intercept}
use sojourn_backend.Wallet.Balance.{Balance}
use sojourn_backend.Wallet.Withdraw.{get_wallet_by_host_id}

-- `WalletPayload` of src/wallet/types.ts
pub record WalletPayload : Type 0 where
  pub bank_name : ℕ
  pub bank_account_number : ℕ
  pub host_id : ℕ

abbrev pub wallet_key : Option Wallet → Option ℕ
wallet_key none = none
wallet_key (some x) = some x.id

abbrev pub with_wallet : Option Wallet → Payment → Payment
with_wallet x p = record p { wallet_id = wallet_key x }

module _ (orm : Orm) where
  -- `AccountRepository.getAccountNumbersByHostId`: the rows and how many they are
  unfoldable pub get_account_numbers_by_host_id : ℕ → World → List Account × ℕ
  get_account_numbers_by_host_id host w =
      let found = orm.find Account (λ a. a.host_id == host) w.accounts in (found, length found)

  unfoldable pub account_row : Wallet → WalletPayload → List Account → Account
  account_row x payload t = record {
    id = orm.generate Account (λ a. a.id) t;
    host_id = payload.host_id;
    wallet_id = x.id;
    bank_name = payload.bank_name;
    bank_account_number = payload.bank_account_number;
  }

  -- `addBankAccount` and the repository's `addMoreBankAccounts`, which save one row alike
  unfoldable pub add_bank_account : Wallet → WalletPayload → Handler Account
  unfolding account_row
  add_bank_account x payload w =
      let a = account_row x payload w.accounts in
      (ok a, record w { accounts = orm.save Account (λ y. y.id) a w.accounts })

  unfoldable pub delete_account_by_id : ℕ → Handler (Unit {0})
  delete_account_by_id i =
      modify λ w. record w { accounts = orm.delete Account (λ a. a.id == i) w.accounts }

  unfoldable pub create_wallet : ℕ → Handler Wallet
  create_wallet host w =
      let x : Wallet = record { id = orm.generate Wallet (λ y. y.id) w.wallets; host_id = host } in
      (ok x, record w { wallets = orm.save Wallet (λ y. y.id) x w.wallets })

  -- `getWallet`, and `isAccountAdded`, which is the same query
  unfoldable pub get_wallet : ℕ → World → Option Wallet
  get_wallet host w = orm.find_one Wallet (λ x. x.host_id == host) w.wallets

  unfoldable pub wallet_or_created : ℕ → Handler Wallet
  unfolding get_wallet create_wallet
  wallet_or_created host w = elim (get_wallet host w) [
    | some x ↦ (ok x, w)
    | none ↦ create_wallet host w
  ]

  unfoldable pub get_payments_by_host_id : ℕ → World → List Payment
  get_payments_by_host_id host w = orm.find Payment (λ p. holds p.host_id host) w.payments

  -- `payment.wallet = wallet`, and the save, for every payment
  unfoldable pub save_payments : Option Wallet → List Payment → Handler (Unit {0})
  save_payments x ps =
      modify λ w. set_payments (save_rows orm (λ p. p.id) (map (with_wallet x) ps) w.payments) w

  unfoldable pub add_account_details : WalletPayload → Handler Wallet
  unfolding get_account_numbers_by_host_id wallet_or_created get_payments_by_host_id save_payments
      add_bank_account
  add_account_details payload = do
    (found, n) ← gets (get_account_numbers_by_host_id payload.host_id)
    throw_if (leb 3 n) Exception.accounts_limit
    x ← wallet_or_created payload.host_id
    payments ← gets (get_payments_by_host_id payload.host_id)
    save_payments (some x) payments
    add_bank_account x payload
    pure x

  -- The number of accounts is tested after the payments have been saved.
  unfoldable pub add_more_bank_accounts : WalletPayload → Handler (Unit {0})
  unfolding get_account_numbers_by_host_id wallet_or_created get_payments_by_host_id save_payments
      add_bank_account
  add_more_bank_accounts payload = do
    x ← wallet_or_created payload.host_id
    payments ← gets (get_payments_by_host_id payload.host_id)
    save_payments (some x) payments
    (found, n) ← gets (get_account_numbers_by_host_id payload.host_id)
    throw_if (leb 3 n) Exception.accounts_limit
    add_bank_account x payload
    pure tt

  -- What is returned is what was found before a wallet was created.
  unfoldable pub get_wallet_by_id : ℕ → ℕ → Handler (Option Balance)
  unfolding get_wallet_by_host_id create_wallet get_payments_by_host_id save_payments get_wallet
  get_wallet_by_id today host = do
    found ← λ w. (get_wallet_by_host_id orm today host w, w)
    elim found [
      | some b ↦ pure tt
      | none ↦ do
        x ← create_wallet host
        payments ← gets (get_payments_by_host_id host)
        save_payments (some x) payments
    ]
    existing ← gets (get_wallet host)
    payments ← gets (get_payments_by_host_id host)
    save_payments existing payments
    pure found

-- The requests of src/wallet/wallet.controller.ts on accounts. Only the first runs in a
-- transaction.
pub data AccountRequest : Type 0 where
  first_account more_accounts : WalletPayload → AccountRequest
  remove_account : ℕ → AccountRequest

unfoldable pub serve_account : Orm → AccountRequest → World → World
serve_account orm (first_account payload) w = (intercept (add_account_details orm payload) w).1
serve_account orm (more_accounts payload) w = (add_more_bank_accounts orm payload w).1
serve_account orm (remove_account i) w = (delete_account_by_id orm i w).1

unfoldable pub serve_accounts : Orm → List AccountRequest → World → World
unfolding serve_account
serve_accounts orm [] w = w
serve_accounts orm (r ∷ rs) w = serve_accounts orm rs (serve_account orm r w)
