-- ===== src/Store.antt =====
-- inference_exchange/coordinator/store.py, by the tables that its methods work on.
pub mod Schema
pub mod Monad
pub mod Accounts
pub mod Billing
pub mod Providers
pub mod Credentials
pub mod Users
pub mod Outcomes
