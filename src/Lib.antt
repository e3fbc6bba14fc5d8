-- ===== src/Lib.antt =====
-- The core of evermore, a service that sells meals by subscription and by the basket: amounts, credits,
-- orders, prices, kitchens, baskets, payments, accounts and the handlers that the web reaches them by,
-- each modelled on its Go source.
--
-- The parts, and how they interact:
--
-- * Money (internal/domain/money/money.go): amounts in whole rupiah on int64, ApplyBPS, SplitInclusive,
--   Mul, Sum and SumSplits. Quotes and payments are computed with these.
-- * Credit (internal/domain/credit/ledger.go): a package's ledger of entries, whose sum is its balance;
--   Redeem, Skip, Expire, ExtendExpiry, Adjust and NextStatus.
-- * Order (internal/domain/order/order.go): the table of transitions with their actors and reasons,
--   Transition and IsTerminal, the deliveries' machine and FulfilmentStatus, and PaymentAmount, which
--   makes an amount end in a three-digit suffix. Order/History is the step relation of an order's
--   changes and what holds of every history.
-- * Pricing (internal/domain/pricing/resolver.go): quantity tiers and their validation, price rows by
--   scope, Resolve.
-- * Routing (internal/domain/routing/router.go): which kitchens may serve a delivery and in which order,
--   Route and Rank.
-- * Nutrition (internal/domain/nutrition/aggregate.go): Aggregate, the panel of a meal from its foods.
-- * Ordering (internal/app/ordering): Quotes is Quote of ordering.go, which uses Pricing and Money;
--   Reservation is reserveAndRoute of ordering.go, which uses Routing; Suffixes is claimSuffix of
--   queries.go, which uses Order; Spending is spendCredits of credits.go, which uses Credit; Orders has
--   the tables and what the ways to place an order share, with the cut-off of queries.go; Checkout is
--   Checkout of ordering.go, CreditCheckout is CheckoutWithCredits of credits.go, and Packages is
--   BuyPackage of packages.go.
-- * Payments (internal/app/payments/payments.go): Proofs is SubmitProof, Decisions is Verify with
--   activatePackages, and Reject, Overdue is ExpireOverdue, on the tables of Rows, and Queue is
--   Instructions and Queue; they use Order for the transitions and Credit for the ledger.
-- * Auth (internal/app/auth/auth.go): Principals is LoadPrincipal and Can, Sessions the refresh tokens,
--   Logins is Login with its lock-out, History the sequences of these operations, Registration is
--   Register and Passwords its policy; Tables has the tables and the record Env of what a call takes
--   from outside.
-- * Migrations (internal/platform/database/migrate.go): Status, Up and Down, with Files for Load.
-- * Platform (internal/platform): Errors is internal/platform/apierror/apierror.go with Fail of
--   internal/adapter/http/middleware.go, Sanitize with Sanitize/Coordinates is
--   internal/platform/sanitize/sanitize.go, Csv is internal/platform/csvexport/csv.go, Locales is
--   internal/platform/i18n/i18n.go, Codes is internal/platform/id/id.go and Settings is the validation
--   and the redaction of internal/platform/config/config.go.
-- * Http (internal/adapter/http): Sessions has who a request comes from and the answers, Guards the
--   middleware of auth.go, Limits the limiter of ratelimit.go, Routes the table of router.go with the
--   middleware of each route, in its order; a request passes these and reaches a handler. Accounts is
--   the identity endpoints of auth.go on Auth, Addresses the screens of app_address.go, with Forms for
--   what they read, Handlers for the requests, Book for the address book of a customer and Allergies for
--   the allergen profile; Carts is the cart cookie of app.go, Orders its handlers that call Ordering,
--   Office is backoffice.go on Payments, Pages has the headers, redirects and the site map of
--   middleware.go and router.go, and Decimals the two printers of ints, itoa of ratelimit.go and
--   intToStr of backoffice.go.
-- * Int64 is Go's int and int64, two's complement on 64 bits with its wrap-around; Sorting is
--   sort.SliceStable; Text and Base hold what the components share.
--
-- How code becomes definitions: a struct is a record, an enumeration a data type, an error value a
-- constructor of a result, and a loop a structural recursion over what it ranges over. Three recursions
-- are on fuel: claimSuffix has the bound of the code, 40 attempts; intToStr and itoa fill the digits of
-- an int64 into at most 20 bytes, which 2 ^ 63 < 10 ^ 19 makes enough; and Code reads random bytes, one
-- for each letter, since 32 letters divide the 256 bytes and none is thrown away. A table of the
-- database is a list of rows, an UPDATE changes the rows that its WHERE clause matches, and a transaction
-- that fails returns an error and no new tables. The unique index on default addresses
-- (db/migrations/0003_identity.up.sql) is checked at the end of each statement. Identifiers, clock,
-- random draws, the digest, the object store, the text of identifiers and dates, Unicode tables,
-- floating-point numbers, the parser of email addresses, the choice that UPDATE ... FROM makes among
-- joined rows and the order in which sort.Slice leaves equal elements are parameters. Numbers in records
-- that stand for dates, instants and identifiers are natural numbers.
--
-- Not modelled: the templates and the handlers that only read and render, the public pages with their
-- queries and messages, the texts of the input guards, what encoding/csv does with a record, reading the
-- environment, logging, connections, password hashes and access tokens, seed data and the schema but for
-- the index above. The sign of the least int64, which intToStr cannot negate, is left out. Failures of
-- the database connection are not modelled, nor are the locks of rows: a transaction is one step. The
-- refresh of a session is two steps, the read of the token and the rotation.
pub mod Base
pub mod Int64
pub mod Money
pub mod Nutrition
pub mod Text
pub mod Credit
pub mod Order
pub mod Pricing
pub mod Sorting
pub mod Routing
pub mod Ordering
pub mod Auth
pub mod Migrations
pub mod Payments
pub mod Platform
pub mod Http
