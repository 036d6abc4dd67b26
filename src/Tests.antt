-- ===== src/Tests.antt =====
-- The theorems at concrete inputs, and runs of the definitions.
mod Policies
mod Metadata
mod Pools
mod Requests
mod Schedules
mod Timestamps
mod Encodings
mod Protocols
mod Concurrency
mod HostPools
mod Updates
