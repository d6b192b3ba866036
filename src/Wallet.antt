-- ===== src/Wallet.antt =====
-- Money: credits, wallets, withdrawals. src/wallet/wallet.service.ts,
-- src/repositories/{credits,wallet,account,payment}.repository.ts, src/utils/wallet-utils.ts and
-- src/utils/payment-utils.ts.
pub mod Credits
pub mod Balance
pub mod Withdraw
pub mod Withdrawn
pub mod Accounts
pub mod Limit
pub mod Payout
pub mod Office
pub mod Records
pub mod History
