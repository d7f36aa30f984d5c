-- ===== src/Models.antt =====
-- The rows of the database (app/models) and the enums of app/enums.
mod Status
mod Rows
mod Tables
unfoldable pub use Status.*
pub use Rows.*
pub use Tables.*
