-- ===== src/Backtesting/Tick.antt =====
-- backtesting/tick/: the simulation of one position on a list of ticks.
pub mod Orders
pub mod Kernel
pub mod Sizing
pub mod Accounting
pub mod Sequence
