-- ===== src/Tests.antt =====
-- Concrete stores and services, and the theorems on them.
pub mod Fixtures
pub mod Library
pub mod Memory
pub mod Access
pub mod Accounts
pub mod Keys
pub mod Trail
pub mod Mail
pub mod Routes
pub mod Scrape
pub mod Growth
pub mod Samples
pub mod Keyring
pub mod RevokedKey
pub mod Variables
pub mod Listing
pub mod Logins
pub mod Batches
pub mod Mailing
pub mod Recorded
pub mod Companies
pub mod Subscriptions
pub mod Hashes
