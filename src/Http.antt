-- ===== src/Http.antt =====
-- internal/adapter/http: the handlers and the middleware of the HTTP surface.
pub mod Sessions
pub mod Addresses
pub mod Decimals
pub mod Limits
pub mod Guards
pub mod Routes
pub mod Accounts
pub mod Carts
pub mod Orders
pub mod Pages
pub mod Office
mod Examples
mod Visits
mod Baskets
