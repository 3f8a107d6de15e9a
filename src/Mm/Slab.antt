-- ===== src/Mm/Slab.antt =====
-- mm/slab.cc, include/davix/slab.h and include/davix/kmalloc.h: objects of one size, in pages of the page
-- allocator. A free object holds the pointer to the next one, so the memory is part of the state. An
-- allocator's pointer is its index. The lock of an allocator is held over each change, so an operation
-- is one step of the state.
mod Defs
pub mod Memory
pub mod Lists
pub mod Chain
pub mod Invariant
pub mod Frame
pub mod Pop
pub mod Sort
pub mod Take
pub mod Start
pub mod HandOut
pub mod Alloc
pub mod Give
pub mod Requeue
pub mod Free
pub mod Settle
pub mod Kmalloc
pub mod Create
pub mod Apart
unfoldable pub use Defs.*
