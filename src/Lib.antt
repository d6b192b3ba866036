-- ===== src/Lib.antt =====
-- The backend of a booking platform: guests book listings of hosts, pay through Paystack or in
-- crypto currency, earn and transfer credits; jobs move the bookings through their states. This
-- library models its core, translated from the TypeScript sources, with theorems.
--
-- The parts, and the files that model them (paths without the leading src/):
--
--   Prelude      shared names, the integers ℤ over the native numbers, lists, Boolean tests
--   Entities     the rows and enums: src/*/entities/*.entity.ts, src/*/types.ts
--   Orm          TypeORM as an interface: the operations on a table and the laws relied on
--   App          the state of the application (`World`, one table for each entity, the events
--                emitted), the monad of the handlers (a result or an exception, and the new
--                world), and src/interceptors/transaction.interceptor.ts (`App.Transaction`)
--   Time         `numberOfNights` of src/utils/index.ts
--   Booking      src/bookings/bookings.service.ts and src/repositories/bookings.repository.ts:
--                the availability of a listing (`Availability`), cancelling (`Cancellation`),
--                and with src/utils/bookings-utils.ts what is shown of bookings (`Views`, `Shown`)
--   Tasks        src/tasks/tasks.service.ts: the four jobs on bookings (`BookingJobs`), what any
--                sweep does to the table (`Sweep`), the theorems of `Clock`, `Schedule`,
--                `Lifecycle` and `Expiry`, reminders (`Reminder`), and the two jobs on payments
--                (`PaymentJobs`, `Confirmed`)
--   Wallet       src/wallet/wallet.service.ts, src/utils/wallet-utils.ts and the repositories of
--                credits and wallets: credits and their transfer (`Credits`), the balance of a
--                host (`Balance`, in exact fractions), withdrawals (`Withdraw`, `Withdrawn`,
--                `Payout`), bank accounts and the payments of a wallet (`Accounts`, `Limit`,
--                `History`), and the office views of src/utils/payment-utils.ts and
--                src/repositories/payment.repository.ts (`Office`, `Records`)
--   Checkout     `initializeTransaction` and `initializeCryptoTransaction` of
--                src/payments/payments.service.ts: checks, sums, requests, and what is recorded
--   Webhook      the Paystack webhook and the two verifications of the same file
--   Auth         src/auth/auth.service.ts and src/repositories/token.repository.ts: the cache and
--                the signing of tokens as interfaces (`Interface`), refresh tokens (`Tokens`),
--                logins (`Login`), codes and resets (`Password`), the creation of accounts
--                (`Accounts`), administrators and the change of a password (`Access`), the
--                theorems (`Sessions`, `Signup`), src/auth/auth.guard.ts (`Guard`), and the cookies of
--                src/auth/auth.controller.ts (`Endpoints`, `SessionCookies`), with the browser as an
--                interface
--   Subscriptions  the subscription of a host: src/subscriptions/subscriptions.service.ts and its
--                first payment in src/payments/payments.service.ts
--   Messages     src/messages/messages.service.ts and src/repositories/messages.repository.ts:
--                tickets and messages (`Tickets`), unread ones (`Reading`)
--   Listings     src/properties/properties.service.ts, src/repositories/properties.repository.ts and
--                src/repositories/property-inpsection.repository.ts: listings with their
--                inspections (`Forms`, `Inspections`), what their requests keep (`Approval`, `Decided`,
--                `Changed`, `Inspected`, `Requests`), the search (`Search`,
--                `Found`, `Regroup`), and what is shown of listings (`Pages`)
--   Wishes       wish lists and reviews: src/repositories/wishlist.repository.ts and
--                src/reviews/reviews.service.ts
--   Users        the status of users and hosts: src/users/guests/guests.service.ts and
--                src/users/partners/partners.service.ts
--   Staff        inspectors and administration: src/inspectors/inspectors.service.ts and
--                src/admin/admin.service.ts
--   Referals     src/repositories/referals.repository.ts and src/referals/referals.service.ts:
--                the balance of a referrer and the requests (`Requests`, `Limit`)
--   System       histories of requests and jobs (`Requests`, each handler in its transaction as
--                the controllers of payments, wallet, bookings and referals ask for it), what
--                they keep of the table of bookings (`Table`, `Untouched`, `Invariant`), and a
--                stay from the checkout to the clock (`Charge`, `Journey`)
--   Tests        the ORM interface carried out on lists, sample rows, and concrete runs
--
-- How they interact: a checkout asks Booking whether the listing is free, reads the total of
-- credits from Wallet, writes a pending booking and a pending payment, and records the credits
-- spent and earned. The webhook confirms the payment and the credits with its reference. The jobs
-- read the payments and move the bookings; they cancel those whose holding window is over. The
-- decision on an inspection switches its listing on or off, and the search shows what is on and
-- free. A login writes a refresh token and sets two cookies; the guard reads one of them before a
-- request reaches its handler, and the restriction of a user closes the logins.
--
-- Conventions. Identifiers, references, addresses and tokens are numbers, dates are milliseconds,
-- and sums of money are whole naira; numbers of guests are integers, which nothing checks.
-- Percentages are taken exactly, where the source rounds a floating-point product. A handler
-- reads the clock once (`now`). What is not in the repository is a parameter: the ORM (`Orm`,
-- with its laws), the answers of the payment providers, the digest of a webhook body, the cache,
-- the signing of tokens, the hash of a password, and whether the query builder brackets a
-- condition (`brackets`; TypeORM adds none, so `false` is the program, and theorems on both
-- readings leave it open). Signing is given at an instant, since a token carries the time;
-- requests at several instants take one each. `Promise.all` runs every call in order and reports
-- the first exception. Reading a property of null is the exception `type_error`. `intercept` is
-- the transaction that a request runs in; the jobs run outside any. All recursion is structural,
-- so no fuel is needed. A checkout leaves out the counter of views, which `Listings.Pages` has. A
-- request body is its declared fields: those that a body may carry beyond them, which no pipe
-- removes, are left out, but for the description of a withdrawal.
--
-- Not modelled: the texts of mails and logs, soft deletion, the columns that are only displayed,
-- the controllers that only pass a request on, validation pipes, uploads, invoices, mails and
-- configuration: they read, store and show rows. The requests of
-- a history are served one after the other: the interleaving of two is not treated.
pub mod Prelude
pub mod Entities
pub mod Orm
pub mod App
pub mod Time
pub mod Booking
pub mod Tasks
pub mod Wallet
pub mod Checkout
pub mod Webhook
pub mod Auth
pub mod Referals
pub mod System
pub mod Tests
pub mod Subscriptions
pub mod Messages
pub mod Listings
pub mod Wishes
pub mod Users
pub mod Staff
