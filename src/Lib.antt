-- ===== src/Lib.antt =====
-- The decision and accounting code of the Hashi bot (the package packages/core) and the execution core of
-- its second version (v2/src/execution-core), modelled function by function.
--
-- The bot gets signals from strategies, chooses among them, decides what may be executed and in what
-- size, and keeps account of the trades, on paper or in a backtest. The modelled parts, and how they
-- call each other:
--
--   Domain      domains.ts: candles, markets, sides, contexts.
--   Policy      execution/breakout-execution-policy.ts: buildExecutionIntent is build_execution_intent,
--               which turns a signal into an intent by the locked tables and the governance locks.
--   Allocator   execution/portfolio-allocator.ts: allocatePortfolioCapital is
--               allocate_portfolio_capital. It ranks the signals (rankCandidates), shares out the risk
--               budget (allocated_risk, decide, decide_all) and asks Policy for an intent for each.
--   Runtime     runtime/breakout-multi-symbol-runtime.ts: the map of the class
--               BreakoutMultiSymbolRuntime is an association list (Base/Dict), each method a function
--               from map to map; the intents that it stores are those of Policy. Runtime/Machine has
--               the steps.
--   Brain       arbitration/strategy-brain.ts: runStrategyBrain is run_strategy_brain. Brain/Score has
--               the parts of a score, Brain/Rate the penalties and the scoring of all candidates,
--               Brain/Pick the choice with the override of a scalp, Brain the rest of the run.
--   Paper       execution/paper-account.ts: Paper has the positions and the snapshot of the account,
--               Paper/Gate computePaperExecutionDecision, which reads that snapshot.
--   Risk        execution/risk-engines.ts: evaluatePersonalRisk and evaluatePropRisk.
--   Trade       backtest/trade-lifecycle.ts and the trades of backtest/types.ts: processTradeOnCandle is
--               process_trade_on_candle, with the object that it mutates as part of its result.
--   Arbitration backtest/candidate-arbitration.ts: selectWinner is select_winner.
--   Backtest    backtest/backtest-engine.ts: Backtest/Aggregation has the aggregation of candles,
--               Backtest/Sizing resolvePositionSizing and the slippage, Backtest/Shadow
--               simulatePlanPnl.
--   Exec        v2/src/execution-core: the store (storage.ts) is the record Store, and every operation a
--               function of it. Exec/Commands and Exec/Repository have repositories.ts and events.ts,
--               Exec/Queue queue.ts, Exec/Worker worker.ts, Exec/Key idempotency.ts, Exec/Capabilities
--               capabilities.ts, Exec/Gates and Exec/Planner planner.ts, Exec/Manager manager.ts: dispatch
--               plans a signal for every account and queues the commands that the worker leases and
--               executes. Exec/Machine has as steps the operations that the worker and the manager call; the
--               operations of the repository that they reach only through those are no steps.
--
-- The paths of the parts before Exec stand under packages/core/src. In each part, Types has the types of
-- the file, the other children the proofs, named for what they prove, and Tests runs on concrete inputs.
-- In Exec the proofs are AtMostOnce (with Reserved), Accepted, Replay, and the children of Queue, Worker,
-- Planner and Manager; DispatchTests has the tests of the last two. Base has what the parts share:
-- numbers, lists, and the stable sort that stands for Array.prototype.sort.
--
-- Numbers. A `number` is an element of a type N with the operations that the source calls
-- (Base/Number): JavaScript's doubles are not code of the repository. Theorems that need more than the
-- code itself name the facts that they use: IsIeee has laws that hold of doubles with NaN, infinities
-- and rounding. Sums are stated in the order in which the source adds them. Base/Decimal is a type
-- with NaN that has these laws, on which the tests run. Lengths, ranks and counters are natural
-- numbers; so is the size of the window of the strategy brain. Texts that the code uses as names
-- (modes, reasons, stages) are constructors of data types, keys and identifiers are strings.
--
-- Every loop of the modelled code runs over a list, so it is structural recursion: there is no fuel
-- and nothing that might not end. `throw` is a result of its own (SyncResult, Outcome, Thrown); a
-- throw of null or undefined, which the worker's catch block does not survive, is an outcome apart.
-- The clock, the parsing of dates and random identifiers are arguments. In Exec a call of `locked` is
-- one step: what two processes do to the file between its reading and its writing is not modelled, and
-- a value is read back from the file as it was written. An adapter of the worker is a function that
-- also says what the store is when the wait for it is over.
--
-- Not modelled: the strategies, the regime engine and the indicators, the rest of the backtest engine,
-- the connectors and providers (network), the adapters under v2, the worker and the web application
-- (database, network and presentation), and the notes of the capital tiers, which no code reads.
pub mod Allocator
pub mod Arbitration
pub mod Backtest
pub mod Base
pub mod Brain
pub mod Domain
pub mod Exec
pub mod Paper
pub mod Policy
pub mod Risk
pub mod Runtime
pub mod Trade
