-- ===== src/Kernel/Sched.antt =====
-- kernel/sched/main.cc: the wake-up of a task that goes to sleep, and the run queues.
pub mod Wakeup
pub mod RunQueue
