-- ===== src/Lib.antt =====
-- Verification of the durable job system of packages/nuxt-cf-jobs. All paths below are under
-- packages/nuxt-cf-jobs/src/runtime/server/.
--
-- A job is a row of a D1 table. A publisher stages the row and sends a message with its id to a
-- Cloudflare queue; a consumer that receives the message claims the row, runs the job's handler
-- through its middleware, and settles the row: completed, failed or released. A sweep releases or
-- fails reservations that went stale and sends again the rows whose message was lost. The parts:
-- - Prelude: Boolean tests, lists, signed numbers, and actions, which pass a state on and return a
--   value or throw an error: the model of code that awaits. A `try` is `try_catch`.
-- - CfJobs.Policy (policy.ts, parts of queue.ts, runtime.ts and outbox.ts): delays and caps.
-- - CfJobs.Send, CfJobs.Publish (queue.ts): the split of messages into batches, the retry under
--   backpressure and the batched sends. The retry loop recurses on the retries that are left, which
--   is the loop's own bound.
-- - CfJobs.Dedup (message-dedup.ts): the guard against duplicate deliveries.
-- - CfJobs.Payload, CfJobs.Middleware, CfJobs.Dispatch (dispatch.ts, errors.ts): the dispatch of a
--   job to its handler. A middleware layer is a tree of what it does between calls of `next()`.
-- - CfJobs.JobStore, CfJobs.Lifecycle, CfJobs.Sweep (d1.ts): the tables, the statements over them,
--   and the operations of the repository. CfJobs.Commands makes the writing operations commands, so
--   that an interleaving of workers, publishers and sweeps is a list of commands.
-- - CfJobs.Message, CfJobs.RunMessage (outbox.ts): one delivery of a durable job.
-- - CfJobs.Outbox (outbox.ts): the grouping of rows by queue and the publication of a batch.
-- - CfJobs.Enqueue (outbox.ts): the enqueue of one job.
-- - CfJobs.Recovery (recovery.ts): the recovery sweep.
-- - CfJobs.BatchStore (batch.ts): the table of the batches and the statements over it;
--   CfJobs.BatchStore.Counters is the abstract view, a counter for each batch, for the settlements,
--   the insertions of batches without members and the increments. CfJobs.Settle.Chain and
--   CfJobs.Settle.Recovered describe the `onFinish` chain and the recovery as relations.
-- - CfJobs.Continuation (outbox.ts, batch.ts): the continuation that a batch keeps as a text.
-- - CfJobs.Batch, CfJobs.Settle (batch.ts): the creation of a batch, the settlement of its members
--   with the chain of `onFinish` calls up its parents, and the recovery of orphaned batches, over the
--   store's contract. CfJobs.BatchSite is the D1 store that implements the contract.
-- - CfJobs.Prune (d1.ts, outbox.ts): the pruning of old terminal rows, in chunks. Its loop recurses on
--   fuel, one more than the table's rows, and each chunk but the last deletes a row.
-- - CfJobs.QueueConfig (queue.ts): the names and bindings of the queues, and their validation.
-- - CfJobs.Consumer, CfJobs.ConsumeMessage, CfJobs.ConsumeBatch (queue.ts): the consumer of registered
--   queues. A reply is an entry of a log, with the message's place in its batch.
-- - CfJobs.Retry (retry.ts): the manual retry of a failed job.
-- - CfJobs.ReconcileTerminal (reconcile-terminal.ts): the failure hook of a job that a sweep ended.
-- - Tests: the theorems at concrete inputs.
--
-- Numbers are whole; times are seconds, and the clock's reading is an argument. Each SQL
-- statement, or batch of statements, is one step, as D1 runs it in one transaction. `Promise.all`
-- runs its actions one after the other. What the platform and the application do (queues, timers,
-- JSON, handlers, hooks) are parameters. A loop recurses on its data; besides the pruning, only
-- the chain of `onFinish` calls recurses on fuel, and fuel above the sum of the pending counters
-- is enough, since each step up the parents brings one counter down.
--
-- Not modelled: the assembly of the runtime from configuration, migrations of the tables,
-- telemetry and statistics, and the other packages of the repository.
pub mod Prelude
pub mod CfJobs
pub mod Tests
