-- ===== src/Lib.antt =====
-- The trading backend: its execution core, which turns a completed market bar into a decision, an
-- order, a fill and the books of an account, and repairs an order whose outcome is unknown; of its
-- backtests, what sizes positions, simulates them on candles and on ticks, closes them by rules and
-- splits a history into windows; and the read of that history. Paths are those of src/q_backend/ in
-- the repository.
--
-- The program's parts. A worker evaluates a strategy on each completed bar and hands the signal to
-- the service (execution/service.py). The service stores one decision for each bar, maps the signal
-- to an order, asks the risk gate (execution/risk.py), commits the order's intent, sends it to a
-- broker (execution/brokers/) and books the fill with the ledger (execution/ledger.py). All of them
-- keep their state in the tables of storage/db/execution_models.py, which they read and write with
-- the functions of storage/db/execution_repositories.py. Orders whose outcome is unknown are settled
-- by execution/reconciliation.py.
--
-- A backtest turns signals into orders with a sizer (backtesting/position_sizing.py), which the candle
-- engine asks for an order and for the largest position that it permits. The tick engine passes the
-- same configuration, as four numbers, to a compiled loop over ticks (backtesting/tick/kernel.py).
-- Bars are read from a local store, and what it lacks from a gateway (market_data/service.py).
-- The walk-forward analysis (optimization/walkforward.py) optimizes on one stretch of history and
-- tests on the next.
--
-- The files:
--   Prelude, Prelude/*: Boolean tests, integers, and tables as lists with their lemmas.
--   Decimal: decimal.Decimal as an interface of operations, and the law that they are exact;
--     Decimal/Fixed: an instance that has this law.
--   Execution/Domain: execution/domain.py; Domain/Lifecycle: paths of status changes.
--   Execution/Broker, Broker/Paper: execution/brokers/base.py and paper.py; Paper/Answer: its answers.
--   Execution/Session: the rows and tables of execution_models.py, and a session as a monad with
--     commit, rollback and errors; Session/Keeps: invariants of actions.
--   Execution/Repositories: execution_repositories.py and execution/commands.py, in Deployments,
--     Orders, Books and Leases; Steps: the session after a call that succeeds.
--     Books/OneOpen and Leases/Exclusion: theorems.
--   Execution/Ledger: execution/ledger.py, in Position (the transition of a net position), Fill
--     (apply_fill) and Snapshot (account_snapshot), with their theorems below them.
--   Execution/Risk: execution/risk.py; Risk/Gate: what passes.
--   Execution/Reconciliation: execution/reconciliation.py; Failed and Outcome: what it leads to.
--   Execution/Service: execution/service.py and results.py, in Call (arguments and answers), Submit
--     (from the order's intent on) and Bar (process_completed_bar and flatten_deployment); Once,
--     Recovery, Blocked and Flatten: theorems.
--   Decimal/Float: conversions between floats and integers, and their laws.
--   Backtesting/Models: backtesting/models.py. Backtesting/PositionSizing: position_sizing.py, in
--     FixedQuantity, FixedSafetyMargin and InverseVolatility (the sizers) and Build (configurations);
--     Within and Bounds: theorems.
--   Backtesting/Registry: registry.py and costs.py. Backtesting/Engine: engine.py, in Fills (exits and
--     entries at a bar's open) and Walk (the bars of a chunk); Flat and Cap: theorems.
--   Backtesting/ExitRules: exit_rules/, in Stops (what the rules remember) and Rule (the rules by name);
--     Extreme: the trailing stop. Backtesting/ExitStrategy: exit_strategy.py; Pruned: what it keeps.
--   Backtesting/Metrics: the drawdown of registry.py; Drawdown: what it is.
--   Backtesting/Tick: backtesting/tick/, in Orders (orders.py) and Kernel (kernel.py); Sizing,
--     Accounting and Sequence: theorems.
--   Optimization/WalkForward: split_windows of optimization/walkforward.py; Rounds, Tiling, Training
--     and Ending: what it returns.
--   MarketData/Coverage: market_data/coverage.py. MarketData/Service: the read through the gateway of
--     market_data/service.py; Merge: its merge of bars.
--   Tests: concrete runs.
--
-- How the state is modelled. A session has the tables as it sees them, the tables as they were
-- committed, and an instant; an action returns a value or an error together with the session, and
-- what was written before an error stays in the session until a rollback. A commit does not raise; one
-- that raises while a fill is persisted ends as the crash point before it, since the handler rolls back. A table is the list of its
-- rows in the order of insertion; a fresh uuid is the next number. An update of an object that a
-- query returned is an update of its row. Unique indexes are the tests that refuse a second row.
-- The clock stands still during one action. Instants are whole microseconds of UTC and durations
-- whole microseconds. A JSON configuration is a list of keys and decimals.
--
-- Decimals are an interface, because the arithmetic rounds to a context that the program leaves to
-- the interpreter; the rounding of numeric columns on storage is not modelled. Theorems on sums
-- assume that sums and comparisons are exact, as they are while no result needs more digits than
-- the context has. Floats are the same interface, with what is relied on of their order and of the
-- conversions to integers in Decimal/Float; those of compiled code are to 64 bits. The ledger's
-- division by a quantity of zero is an error; the other divisors are positive by validation, or entry
-- prices, which are taken to be not zero. Values that are not finite are left out; a missing value
-- (NaN) is an option, except in the column `open`, where NaN is left out.
--
-- Loops run over lists, but for the search for walk-forward windows, which has fuel: one round for
-- each day of the range and one more are enough.
--
-- Collaborators are parameters: a backtest's strategy is three functions on a state of its own, of
-- which `check_exits` can be that of ExitStrategy; the printing of numbers is in a record of names;
-- the broker and the quote source are functions of the instant and the request, and the crash points
-- that the tests inject are a set. The paper broker is modelled.
--
-- Not modelled: log lines, timings, messages and free text, audit rows, listing pages; the worker's
-- loop, startup recovery, the bar coordinator, the MetaTrader broker and its gates, and the
-- evaluation of strategies; the other metrics of a backtest, the runs of a walk-forward analysis and the
-- searches, features, neural models, the strategy builder, the clients and stores of market data, the
-- HTTP interface, the task queue and the other storage. They are other components, or glue over
-- numerical and third-party libraries.
pub mod Prelude
pub mod Decimal
pub mod Execution
pub mod Backtesting
pub mod Optimization
pub mod MarketData
pub mod Tests
