-- ===== src/Mm/PageAlloc.antt =====
-- mm/page_alloc.cc. A page is its frame number. `freelist_lock` is held over each change of the lists,
-- so an operation is one step of the state.
mod Defs
pub mod Laws
pub mod Allocate
unfoldable pub use Defs.*
