-- ===== src/Kernel.antt =====
-- Locks and deferred work under kernel.
pub mod Mutex
pub mod RwMutex
pub mod Sched
pub mod KTimer
