-- ===== src/Dsl.antt =====
-- The library under include/dsl and dsl: alignment, and the trees of virtual memory areas.
pub mod Align
pub mod VmaTree
pub mod AvlTree
