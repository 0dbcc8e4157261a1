-- ===== src/Tests.antt =====
-- Concrete runs of the model: a scene with one account and one running deployment, and for each
-- theorem with hypotheses an instance of it in that scene.
mod Scene
mod Books
mod Bars
mod Gate
mod Backtest
mod Candles
mod Market
