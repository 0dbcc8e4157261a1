-- ===== src/Execution/Service.antt =====
-- execution/service.py: one completed bar, from the decision to the ledger.
pub mod Call
pub mod Submit
pub mod Bar
pub mod Once
pub mod Recovery
pub mod Flatten
pub mod Blocked
