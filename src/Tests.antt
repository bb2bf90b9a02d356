-- ===== src/Tests.antt =====
-- Runs of the theorems on concrete inputs.
mod Buffers
mod Queues
mod Urls
mod Socks
mod Files
mod Times
mod Streams
mod Services
mod Handlers
mod Composed
mod FileFlags
mod Names
