-- ===== src/Schema.antt =====
-- The tables of server/database.py (`SCHEMA`), as lists of rows, and the enums of
-- common/models.py that their columns hold. Timestamps are numbers: the texts that the code stores
-- have one fixed format in each column, so that their order as texts is the order of the times.
-- A column that holds `json.dumps(x)` is modelled by `x`.
mod Rows
mod Integrity
mod WellFormed
unfoldable pub use Rows.*
unfoldable pub use Integrity.*
unfoldable pub use WellFormed.*
