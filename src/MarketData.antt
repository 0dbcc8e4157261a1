-- ===== src/MarketData.antt =====
-- The reading of market data: market_data/.
pub mod Coverage
pub mod Service
pub mod Merge
