-- ===== src/CfJobs.antt =====
-- The queue jobs package, packages/nuxt-cf-jobs: a module for each part of its server runtime.
pub mod Policy
pub mod Send
pub mod Publish
pub mod Dedup
pub mod Payload
pub mod Middleware
pub mod Dispatch
pub mod JobStore
pub mod Lifecycle
pub mod Sweep
pub mod Commands
pub mod Message
pub mod RunMessage
pub mod Outbox
pub mod Enqueue
pub mod Recovery
pub mod Retry
pub mod ReconcileTerminal
pub mod BatchStore
pub mod Continuation
pub mod Batch
pub mod Settle
pub mod BatchSite
pub mod Prune
pub mod QueueConfig
pub mod Consumer
pub mod ConsumeMessage
pub mod ConsumeBatch
