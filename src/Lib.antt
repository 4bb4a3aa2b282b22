-- ===== src/Lib.antt =====
-- quanteo, a stock-trading bot: the trading core of the Python package `core`, from a strategy's
-- signal to the order at the broker and back to the local tables.
--
-- A strategy raises a `Signal`. `RiskManager.evaluate` turns it into an `Order` or a rejection.
-- `OrderExecutor.submit` writes the order to the state store, sends it to the broker and writes the
-- answer; `record_fill` books the fills. Three feeds poll the broker and bring the tables in line
-- with it: one the status of open orders, one the list of all orders, one the holdings. All of them
-- publish on one event bus. The strategy engine feeds the plug-ins with ticks and publishes their
-- signals; the client of the broker sends every request. Beside them, the backtest engine replays a
-- strategy on past candles, which a data source collects, and the walk-forward validation repeats that.
--
-- Files and sources:
--
-- - Domain: core/risk/models.py, core/strategy/base.py (`Signal`), `Market` of core/config/settings.py.
--   A constructor that checks its arguments in `__post_init__` is `make_signal`, `make_order`.
-- - Events: core/events/types.py and core/events/bus.py. One call of `loop_round` is one round of
--   `_dispatch_loop`. What handlers do is an argument, and they may publish and subscribe.
-- - Risk: core/risk/manager.py. `evaluate` is `RiskManager.evaluate` with its steps in order; a manager
--   is passed in and out. `check_exit`, `graduated_halt`, `reset_halt` are the methods of these names.
--   A `session` in Risk/Halt is a sequence of calls of its public methods, in any order.
-- - Store: core/store/db.py and the tables of core/store/schema.py. Each SQL statement is a function on
--   lists of rows; an INSERT fails on a duplicate key, as UNIQUE has it.
-- - Executor: core/execution/executor.py. `advance` runs `submit` from one `await` to the next, so that
--   several calls can interleave on one store; `submit` runs one call to its end.
-- - PollLoop: the `run` loop of order_sync.py, order_history_sync.py and position_sync.py under
--   core/execution. OrderSync, OrderHistory and PositionSync: `sync_once` of the three; `mirror` is the
--   table and the announced changes of `_sync_once_locked`.
-- - Backtest: core/backtest/engine.py, which replays candles through a strategy. `bar` is one round of
--   the loop of `BacktestEngine.run`, `replay` the whole loop, `run` with the warm-up before it.
-- - WalkForward: core/backtest/walk_forward.py, with the engine as an argument. DataSource:
--   core/backtest/toss_data_source.py; `range_loop` is the loop of `fetch_range` with its 500 rounds.
-- - Metrics: core/backtest/metrics.py, as far as it needs no root or power of a float. `pair_trades`,
--   `calculate_mdd` and `equity_to_returns` are its functions, `tally` the loop over the pairs.
-- - MarketData: `Candle`, `Tick` of core/marketdata/models.py and the context of core/strategy/base.py.
-- - StrategyEngine: core/strategy/engine.py; a plug-in is a name with a state, and what its methods do
--   is an argument. StrategyEngine/Harness: core/strategy/harness.py. `play` in StrategyEngine/Parity
--   sends the engine the events of the candles that the harness replays.
-- - Throttler: core/adapters/throttler.py.
-- - Toss: core/adapters/toss. Auth is auth.py and Models is models.py; of rest.py, Http has the requests with
--   the retry, Orders, Trades, Account and Rates the methods, Parse, Read and ReadMarket the reading
--   of the answers. `Json` are the values that the `json` module reads; a method is a `Call`, which
--   takes the client and returns a value or an exception with the client; `Port` is the outside.
-- - Indicators: core/strategy/indicators/ma.py and cci.py. MultiTimeframe: core/strategy/multi_timeframe.py;
--   in its Loader, `load` is `MultiTimeframeLoader.load`, `fetch_and_compute` its four `_fetch_and_compute_...`.
-- - TimeframeJudge: core/strategy/timeframe_judge.py, the gate of the higher timeframes on a trade.
-- - Float: the operations on Python's `float` that the code uses, as an interface without laws.
--   Float/Won is an instance on integers, on which the tests run, and Float/Tenths one on tenths, where
--   the laws that one theorem assumes are proved. Base holds what the others share.
--
-- Arguments that stand for the outside: the clock (a date number or ISO text), uuid4, the broker's
-- answers, the order that ORDER BY gives, whether a write to the database fails. SQLite runs each
-- statement at once; between the statements of different tasks any order is possible.
--
-- Bounds and fuel. `submit` has four steps between its awaits, and four are what `drive` gets. The
-- backfill of the order history stops after 100 pages in the code itself. The polling loop runs over
-- the list of its rounds. `get_trades` follows cursors that the broker chooses, so it has fuel, and
-- one more than the number of pages is enough; so has `validate`, whose fuel is to exceed the number
-- of candles. Times of the throttler are whole milliseconds. Quantities are Python integers, which do not overflow.
--
-- Not modelled: the strategy plugins, the other indicators, the HTTP API, the clients of
-- the data services, notifications, the screener and the information service, and
-- the logs. Time stamps that are only logged, log texts and the broker's raw answer are
-- left out of the records.
pub mod Backtest
pub mod Base
pub mod DataSource
pub mod Domain
pub mod Events
pub mod Executor
pub mod Float
pub mod Indicators
pub mod MarketData
pub mod Metrics
pub mod MultiTimeframe
pub mod OrderHistory
pub mod OrderSync
pub mod PollLoop
pub mod PositionSync
pub mod Risk
pub mod Store
pub mod StrategyEngine
pub mod Throttler
pub mod TimeframeJudge
pub mod Toss
pub mod WalkForward
