-- ===== src/Queue.antt =====
-- The queues between threads: shared/algorithm/SpscQueue.h and LockQueue.h.
pub mod Slots
pub mod Spsc
pub mod Mpsc
pub mod Lock
