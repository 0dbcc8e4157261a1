-- ===== src/Execution/Ledger.antt =====
-- execution/ledger.py: the effect of a fill on the cash, the ledger and the net position.
pub mod Position
pub mod Fill
pub mod Snapshot
