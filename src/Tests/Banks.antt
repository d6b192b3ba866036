-- ===== src/Tests/Banks.antt =====
-- Bank accounts on the sample rows.
use sojourn_backend.Prelude.{◌≤◌, [], ◌∷◌, arith}
use sojourn_backend.Wallet.Accounts.{
  WalletPayload, first_account, more_accounts, remove_account, serve_accounts,
}
use sojourn_backend.Wallet.Limit.{accounts_of, limit_of_three_accounts}
use sojourn_backend.Tests.Database.{list_orm}
use sojourn_backend.Tests.Samples.{sample}

abbrev bank : WalletPayload
bank = record { bank_name = 1; bank_account_number = 2; host_id = 30 }

limit_of_three_accounts_example :
    accounts_of list_orm 30 (
      serve_accounts list_orm
        (first_account bank
          ∷ more_accounts bank
          ∷ more_accounts bank
          ∷ more_accounts bank
          ∷ remove_account 0
          ∷ [])
        sample)
    ≤ 3
unfolding list_orm
limit_of_three_accounts_example =
    limit_of_three_accounts list_orm 30
      (first_account bank
        ∷ more_accounts bank
        ∷ more_accounts bank
        ∷ more_accounts bank
        ∷ remove_account 0
        ∷ [])
      sample (omega arith)
