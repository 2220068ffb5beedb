-- ===== src/Tests.antt =====
-- The theorems at concrete inputs.
mod Network
mod Server
mod Control
mod Inputs
mod Codec
mod Queues
mod Secure
mod Claims
mod Daemon
mod Commands
mod Simulator
mod Accounts
mod Workers
