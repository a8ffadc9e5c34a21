-- ===== src/Storage.antt =====
-- internal/storage and internal/storage/sqlcgen: the Postgres tables and the repositories.
pub mod Db
pub mod Rows
pub mod Keeps
pub mod Closed
pub mod Users
pub mod Sessions
pub mod Items
pub mod Mfa
pub mod Audit
pub mod Sound
pub mod Absent
