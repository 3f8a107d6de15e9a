-- ===== src/Tests.antt =====
-- Tests: each theorem with a hypothesis applied at a concrete input, by component.
mod VmaTree
mod PageAlloc
mod Mutex
mod RwMutex
mod Vmap
mod Slab
mod Sched
mod RunQueue
mod Strings
mod EarlyAlloc
mod AvlTree
mod KTimer
