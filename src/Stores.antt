-- ===== src/Stores.antt =====
-- internal/datastore/postgres: the stores, over the tables of Sql.
pub mod Events
pub mod Sessions
pub mod AuditLogs
pub mod ApiKeys
pub mod OrganizationUsers
pub mod Users
pub mod Organizations
pub mod Passwords
pub mod Plans
pub mod Invitations
