-- ===== src/Lib.antt =====
-- Deadbolt finds access that is no longer needed, plans its reduction, asks for approval and executes
-- the plan with a way back. This library models the core of the Python program in
-- backend/src/deadbolt and proves what makes it correct.
--
-- The parts and the files that model them:
--   Contracts, Contracts/Provider   contracts/models.py, contracts/provider.py: the shared data
--                                   objects, and a provider as three calls on a state of its own
--   Engine/Scoring, Engine/Tiers,   engine/scoring.py, tiers.py, drift.py: factors in basis points,
--   Engine/Drift                    the weighted score, the tier of a score, the sorted findings
--   Plan/Canonical, Plan/Builder    plan/canonical.py, preimage.py, builder.py: canonical JSON and its
--                                   hash, the checked action, the plan built from findings
--   Executor/Idempotency            executor/idempotency.py: the lock of a delivery
--   Executor/State, Snapshots,      executor/run.py: Executor.execute as a program on one state (the
--   Execute                         provider, the lock table, the object store, the log of steps and
--                                   the local variables that its exception handler reads)
--   Executor/Rollback               executor/rollback.py: recorded actions restored one by one
--   Providers/Fixture               providers/fixtures/_base.py: the provider in memory
--   Providers/Workday               providers/workday.py: the connector that reads workers and groups
--   Audit/Config, Safe, Chain,      audit/writer.py: the settings, the redacted copy of a result, the
--   Writer                          hash chain of the records of a plan, the writer
--   Broker/StateMachine             broker/statemachine.py: the generated workflow and its executions
--   Broker/Card                     broker/card.py: the card with the approval buttons
--   Broker/Callback                 broker/handler.py: the callback of an approval button
--   Graph/Identity                  graph/identity.py: the worker behind an account
--   Graph/Store                     graph/store.py: the single table of the graph, written in batches of
--                                   25 with a retry of what was not processed, and read page by page
--   Graph/Snapshot                  graph/snapshot.py: the run over all providers, which keeps what a
--                                   provider returns and reports one that raises
--   Graph/Capture                   graph/capture.py: the redacted body of a capture with its manifest,
--                                   and the provider that reads one back
--   Auth                            auth.py: the check of the token of a request
--   Broker/Negotiate                broker/negotiate.py: a decision with a reason or a narrower scope
-- A snapshot run brings the entitlements of all providers into the graph. The engine turns entitlements
-- into findings, the builder turns findings into a plan, the workflow
-- decides whether a plan is executed, and the executor executes one action of a plan at a time.
--
-- Shared: Prelude (lists, texts, integers, sorting by a key), Errors (a call that may raise returns a
-- Result), Exec (a call that acts on a state and may raise: what it did before a raise stays done),
-- Value (Python values that the code tests by isinstance). A file beneath a part, such as
-- Execute/FailClosed or Idempotency/Waiting, is named for what it proves; Tests holds the inputs at
-- which the theorems are applied.
--
-- What is not under the repository is an argument: Runtime (hashlib, json, datetime, text methods),
-- Services (a DynamoDB table, an S3 store), the providers and the audit writer. What a theorem relies
-- on of them is a hypothesis of it (IsReadOnly, IsConditional, IsClock, IsOutside, IsBatching,
-- IsProgressing, IsIso, IsTyped).
--
-- Numbers: Python's integers are natural numbers where the code rejects others, and integers
-- elsewhere. Time is in whole microseconds. The loop that waits for a lock has fuel: a round sleeps for
-- at least a microsecond, so one unit for each microsecond of the wait is enough. The loop over the
-- pages of a query has fuel too, one unit for each page.
--
-- The workflow follows the specification of Amazon States Language: a choice on a missing field ends
-- the execution with an error, as does a payload that takes a missing field, and a catcher without a
-- ResultPath replaces the data by the error output.
--
-- A record of the provider in memory in which a field that the code only casts has another type gives
-- `untyped` when it is read, which is no exception: what the code does with such a record is not
-- followed.
--
-- Not modelled: the connectors of GitHub, AWS and Salesforce, the seed of the provider in memory, the
-- HTTP and MCP adapters, the command line, metrics and tracing, and the texts of log lines, exceptions and function names.
pub mod Prelude
pub mod Errors
pub mod Exec
pub mod Value
pub mod Runtime
pub mod Contracts
pub mod Engine
pub mod Graph
pub mod Plan
pub mod Services
pub mod Executor
pub mod Providers
pub mod Audit
pub mod Broker
pub mod Auth
pub mod Tests
