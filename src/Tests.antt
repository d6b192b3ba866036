-- ===== src/Tests.antt =====
-- Concrete runs of the handlers, on tables kept as lists.
mod Rows
mod Database
mod Samples
mod Jobs
mod Stays
mod Checkouts
mod Payments
mod Withdrawals
mod Accounts
mod Requests
mod PaymentRuns
mod Histories
mod Banks
mod Doors
mod Plans
mod Views
mod Listings
mod Sessions
