-- ===== src/Tests.antt =====
-- Runs of the model on small inputs, and the theorems at inputs that meet their hypotheses.
mod Queue
mod Security
mod Ingestion
mod Storage
mod StorageLog
mod StorageThreads
mod Ros
mod Blocking
mod Config
mod Startup
mod MockPublisher
mod Packet
mod Logger
mod UnitTests
mod Payload
