-- ===== src/Storage/Integrity.antt =====
-- What the schema of Database.cpp promises, over all statements of the repositories: ids that grow
-- and are never given twice, one contact to a public key, and a contact for every message.
mod Lists
mod Steps
mod Statements
unfoldable pub use Lists.{contains}
pub use Lists.{Ascends, Distinct, All-delete_ne, contains-append}
pub use Steps.*
pub use Statements.*
