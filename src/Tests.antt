-- ===== src/Tests.antt =====
-- Runs of the model on small inputs, and the theorems at concrete data.
mod Samples
mod Receiving
mod Wire
mod Paths
mod Datagrams
mod Sending
mod Restoring
mod Support
mod Scanning
mod Transfers
mod Logs
mod Showing
mod Crossings
