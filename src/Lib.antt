-- ===== src/Lib.antt =====
-- Verification library of Agenthedge, a multi-agent trading system in Python. Paths are from the
-- repository's root.
--
-- The agents talk over a message bus: a market directive becomes a proposal, which the risk,
-- compliance and director agents approve in turn, and the execution agent turns a director's approval
-- into an order of the broker and books the fill in the portfolio. Every agent writes to a
-- hash-chained audit log.
--
-- - Message, Worker, Bus: `src/agents/messaging.py`. A subscription and its thread are one object
--   (Worker) on a heap, since the code keeps using an object that has left the dicts. The thread's loop
--   is `take`, up to the handler's call, and `finish`, after it, so that any interleaving of threads
--   and calls is a sequence of steps (Bus/Invariant). Handlers are not run: what they are called with
--   is kept in `handled`. UUIDs and the clock are arguments, and so is `fnmatch`.
-- - PgBus: `src/agents/postgres_bus.py`. The three tables are lists of rows and each SQL statement a
--   function of them (Tables); Client holds the calls of one instance, Poller the thread of a
--   subscription, split where it calls the handler, Progress the reports. A transaction is one step.
--   PgBus/Steps has everything that any instance may do as a step relation, a process that stops in the
--   middle of a handler included. The JSON decoder, `str` of a JSON value and the clock are arguments.
-- - Audit: `src/audit/sink.py`. A line is what `json.loads` makes of it; the SHA-256 of the canonical
--   JSON is a parameter. The file has its lines and whether the last one ends in a newline, since a record
--   is written right behind what is there (Audit/Unended). Audit/Race splits a call where it takes the
--   lock.
-- - Portfolio: `src/portfolio/store.py`, `apply_fill` and `bulk_load`. The JSON file is left out: every
--   change writes the state whole.
-- - PgPortfolio: `src/portfolio/postgres_store.py` and its tables in `src/infra/postgres.py`. A call is a
--   transaction on lists of rows, with the primary and unique keys that refuse a row; `ORDER BY` follows
--   a collation that is an argument. The mirror file repeats the rows; it is written within the
--   transaction of a fill, so of it there is whether that write raises, which rolls the fill back. `bulk_load` writes it after its transaction.
-- - Broker: `src/portfolio/broker.py`, the simulated adapter and the comparison of positions.
--   Broker/Idempotent and Broker/Reconcile hold its theorems.
-- - Safety: `src/portfolio/safety.py`.
-- - Orders: the order ledger of `src/agents/impl/execution.py`; Execution: the agent of that file, over
--   any broker that has the operations of `BrokerAdapter`, with its first checks in Execution/Checks;
--   Execution/Simulated is the simulated one as such an adapter. What the agent calls and publishes is
--   its `trace`, newest first.
-- - Risk: `src/agents/impl/risk.py`, with the harness of `src/risk/stress.py`: Risk/Proposal is the
--   handler of proposals (what passes it: Risk/Approved, Risk/Limits), Risk/Watch that of market snapshots, Risk/Stress the tick. `statistics`,
--   `math.sqrt`, `sum` and `round` are fields of its settings.
-- - Lease: `src/infra/runtime_state.py`, the Postgres sink over its tables (`src/infra/postgres.py`).
-- - Runtime: `src/agents/runtime.py` over that sink. An iteration is given what it meets: each agent's
--   turn, with the kill signals that have been handled by its end, and the outcome of the wait for the
--   bus; the signals that come in besides are handled whatever the iteration does, as the bus's thread
--   handles them, also when the runtime is killed. Runtime/Loop has `start` and the loop, Runtime/Names
--   the agents that are created, and Runtime/Reports the reconciliation and the alarm on fills. Runtime/Restart speaks of a runtime, the
--   tables and the runtime that comes after it; Runtime/Onward is what an iteration's parts keep.
-- - Compliance: the handler of `src/agents/impl/compliance.py`, as the list of what it publishes, audits
--   and alerts; Director: the release of an approval in `src/agents/impl/director.py`. Director/Chain
--   speaks of compliance, director and execution together, Director/Pipeline of risk's part too.
-- - BreakGlass: `src/infra/break_glass.py`, over the rows of its table; Performance:
--   `src/learning/performance.py`; Cache: `src/data/cache.py`; Anomaly: `src/observability/anomaly.py`.
--
-- Floats are the record `Floats`: operations without laws. Where a theorem rests on a law of floats, the
-- law is its hypothesis. Python's `str.upper`, `str.lower`, the parser of ISO times and the sorting of
-- symbols are parameters too. Payloads are JSON values (Values). Locks are left out where a method holds
-- one throughout, as its body then is one step. Some bodies are one step though the code holds its lock
-- only for a part: `publish` and `subscribe` release it between the history and the queues, so that a
-- subscription may come in between (the step `handed` of the bus has envelopes that are handed out late),
-- and a worker looks at its subscription's flag and calls the handler without a lock, so that a
-- cancellation that falls between the two is taken as one that comes after the call.
--
-- No function of the library runs on fuel: loops recurse on the list that they go through, the polling
-- loop of `drain` on the rounds that it observes and the loop of the runtime on what its iterations meet,
-- of which Runtime/Ends says how many there are.
--
-- Not modelled: the data providers, the dashboard and the command line (HTTP, rendering and reports over
-- files), logging and metrics, the construction of the runtime from the environment, and so far the
-- scheduler, the director's tick, the quant and audit agents, the alerts and the Alpaca adapters.
pub mod Prelude
pub mod Values
pub mod Floats
pub mod Message
pub mod Worker
pub mod Bus
pub mod Audit
pub mod Portfolio
pub mod Broker
pub mod Risk
pub mod Safety
pub mod Orders
pub mod Execution
pub mod Compliance
pub mod Director
pub mod Cache
pub mod BreakGlass
pub mod Performance
pub mod Anomaly
pub mod PgBus
pub mod PgPortfolio
pub mod Lease
pub mod Runtime
