-- ===== src/Mm.antt =====
-- Physical memory: the zones of arch/x86/include/asm/zone.h and the allocators under mm.
pub mod Zone
pub mod PageAlloc
pub mod EarlyAlloc
pub mod Vmap
pub mod Slab
