-- ===== src/Execution/Session.antt =====
-- storage/db/execution_models.py and the SQLAlchemy session: the rows, the tables, and actions that
-- may raise. Identifiers and names that are only compared are numbers; a fresh uuid is the next
-- number. Free text (names, messages, reasons, descriptions) and JSON contexts are left out.
pub mod Rows
pub mod Monad
pub mod Keeps
