-- ===== src/Execution.antt =====
-- The forward execution of deployments: src/q_backend/execution and the tables behind it.
pub mod Domain
pub mod Broker
pub mod Session
pub mod Repositories
pub mod Ledger
pub mod Risk
pub mod Reconciliation
pub mod Service
