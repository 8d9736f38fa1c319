-- ===== src/Tests.antt =====
-- Runs of the definitions, and the theorems at concrete inputs.
mod World
mod Tokens
mod Session
mod Streams
mod Transport
mod Channels
mod Buffers
mod Managers
mod Simulated
mod Replicated
