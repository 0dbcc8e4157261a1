-- ===== src/Execution/Repositories.antt =====
-- storage/db/execution_repositories.py: the reads and writes of the execution tables.
pub mod Deployments
pub mod Orders
pub mod Books
pub mod Leases
pub mod Steps
