-- ===== src/Optimization.antt =====
-- The optimization part of the program: optimization/.
pub mod WalkForward
