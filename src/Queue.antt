-- ===== src/Queue.antt =====
-- The delegation queues under queues/.
pub mod DualBuffer
pub mod Locked
pub mod Registry
pub mod Entry
