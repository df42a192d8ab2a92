-- ===== src/Tests.antt =====
-- The theorems of the library at concrete inputs.
mod Policies
mod Sending
mod Retrying
mod Rows
mod Sweeping
mod Batches
mod Consuming
mod Delivery
mod Enqueueing
mod Reconciling
mod Pruning
