-- ===== src/Ordering.antt =====
-- internal/app/ordering: the checkout. `Spending` is the part of credits.go that turns a basket into
-- REDEEM entries.
pub mod Spending
pub mod Quotes
pub mod Reservation
pub mod Suffixes
pub mod Orders
pub mod Checkout
pub mod CreditCheckout
pub mod Packages
pub mod Placements
pub mod CreditPlacements
pub mod Purchases
mod Examples
mod Baskets
