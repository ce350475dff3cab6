-- ===== src/Tests.antt =====
-- The theorems at concrete inputs.
mod Codec
mod Contract
mod Store
mod Chain
mod Trees
mod Pool
mod Lists
mod Blocks
mod Script
mod Pending
mod Raft
mod Server
