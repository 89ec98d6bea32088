-- ===== src/Tests.antt =====
-- Runs of the code on small inputs.
mod Frames
mod Broker
mod Metrics
mod Producer
mod Storage
mod Config
mod Pipeline
mod System
mod Process
mod Concurrent
mod Fanout
