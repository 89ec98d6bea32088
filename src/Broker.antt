-- ===== src/Broker.antt =====
-- internal/broker: the broker that takes messages from producers and hands them to consumers.
pub mod Channel
pub mod Queue
pub mod Registry
pub mod Mode
pub mod Role
pub mod Handlers
pub mod Producing
pub mod Queueing
pub mod Consuming
pub mod Delivery
pub mod System
pub mod Subscribing
pub mod Shutdown
pub mod Fanout
pub mod Process
