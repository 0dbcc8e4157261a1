-- ===== src/Backtesting.antt =====
-- The backtesting part of the program: backtesting/.
pub mod Models
pub mod PositionSizing
pub mod Registry
pub mod Engine
pub mod ExitRules
pub mod ExitStrategy
pub mod Metrics
pub mod Tick
