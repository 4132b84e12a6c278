-- ===== src/Sql.antt =====
-- crates/sql-backend-handler: the numbers that it assigns, the conditions that it makes of filters, and
-- how it stores the values of attributes.
pub mod Posix
pub mod Filters
pub mod Values
pub mod Reassign
