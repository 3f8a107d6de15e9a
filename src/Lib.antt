-- ===== src/Lib.antt =====
-- davix is a small kernel for x86-64. This library models its memory management, the data structures
-- below it, its scheduler, timers and sleeping locks, and its string functions, and proves of them
-- what the list of results says.
--
-- Parts and files:
--   Dsl/Align: include/dsl/align.h, `align_up` and `align_down` at 64 bits.
--   Dsl/VmaTree: include/dsl/vmatree.h, dsl/vmamodify.cc and dsl/vmafind.cc, the AVL tree of
--     address ranges that caches the largest free gap of each subtree. `VMANode` is the record
--     VmaNode, less its pointers: the tree owns its nodes, a `parent` pointer is the rest of a Trail,
--     and the linked list beside the tree is the in-order sequence `entries`. Modify holds the AVL
--     helpers, `fixup` and `insert`, Remove `remove`, Adjust `adjust`, Lookup the three lookups, Find
--     and TopDown the two searches for a free block. The caller of `remove` or `adjust` points at a
--     node: here it is a subtree and the trail above it. Locate finds that place again by the first
--     address of the node.
--   Dsl/AvlTree: include/dsl/avltree.h and dsl/avlfixup.cc, AVL trees of any elements, with a place
--     as above. Entries is about the sequence of the elements, Sorted about its order, Shape about
--     the heights, and Insert has what `insert` promises.
--   Mm/Zone: arch/x86/include/asm/zone.h and include/davix/allocation_class.h.
--   Mm/PageAlloc: mm/page_alloc.cc, the free lists of physical pages. A page is its frame number,
--     and the state has the lists, the counters, the flags of the pages and the bytes of memory.
--   Mm/EarlyAlloc: mm/early_alloc.cc, the list of free blocks before the page allocator is there.
--     Fit and Place follow `early_alloc_phys_range`, Room and Given say when it finds a
--     block, Zones is about `early_alloc_phys`, Free about `early_free_phys`, HandOver about the end
--     of the list in the page allocator; Cover counts the blocks that have a byte.
--   Mm/Slab: mm/slab.cc, objects in pages of the page allocator. Memory has the physical address as
--     its index, and a pointer is a direct-map address (`hhdm` is HHDM_OFFSET). Memory has the words
--     in it, Defs `slab_alloc` and `slab_free`, Kmalloc `slab_create`, `kmalloc`, `kfree` and
--     `kmalloc_init`. Chain, Invariant and Frame say what holds of a page and of all pages; Pop,
--     Take, Start and HandOut follow the branches of `slab_alloc`, Give, Requeue, Free and Settle
--     those of `slab_free`. Lists and Sort are about the lists of pages, Apart and Create about what
--     callers get.
--   Mm/Vmap: mm/vmap.cc, areas of the kernel's address space with a free page on both sides, as
--     nodes of the tree, and the entries of the page tables: the search with guard pages in Mm/Vmap
--     itself, `vmap_io_range` and `vunmap` in Map, the limits of `free_pte_range` and its round over
--     an empty range in Limits, the loop over the pages in Pages.
--   Kernel/Mutex: kernel/mutex.cc and include/davix/mutex.h, a step relation over any number of
--     tasks. Moves has the accesses of the lock functions up to the sleep, those after the wake-up
--     and those of `unlock`, Queue the waiter list, Contract and Errors what callers may rely on.
--   Kernel/Sched: kernel/sched/main.cc. Wakeup is a step relation for one sleep of one task, from
--     its ticket to its next run, with any number of callers of `sched_wake`, which may be anywhere
--     when it begins: a step is one atomic access, or the enqueuing. RunQueue has the run queue of a
--     processor with `schedule`, `pick_next_task`, `context_switch` and the two enqueue functions,
--     and `find_least_loaded_cpu`;
--     Pick and Picked are about the choice of a task, Enqueue, Schedule and Least about what is kept.
--   Kernel/KTimer: kernel/ktimer.cc, the timers of a processor in the order of their expiry; Kept
--     has the operations, Run the DPC, whose callbacks and clock are parameters.
--   Kernel/RwMutex: kernel/rwmutex.cc, a step relation over any number of threads; a step is one
--     atomic access or one call of a mutex.
--   Util/Strings: util/string.cc. Memory is a byte for each address. Copy is about the functions
--     that fill and copy bytes, Length about those that look for an end, Compare about the
--     comparisons, and Pad about those that copy strings.
--   Prelude: Boolean tests, lists, words of 64 bits and the laws of `&`. Tests: concrete values.
--
-- The page allocator gives pages of a zone to its callers, the slab allocator among them; the tree
-- gives address ranges, whose blocks are aligned with `align_up`; virtual mappings are such blocks.
-- The reader-writer lock stands on two mutexes, taken by the contract of include/davix/mutex.h.
-- Kernel/Mutex/Contract shows it of kernel/mutex.cc for tasks that unlock what they have locked; the
-- last reader may unlock a `common_mutex` that another reader has locked, for which it is assumed.
-- The early allocator hands its blocks to the page allocator, in the
-- states of both. The timers keep the sequence that `insert` of an AVL tree gives. The slow paths of
-- the mutex sleep by `schedule` and are woken by `sched_wake`, of which their model takes that a
-- wake-up is not lost.
--
-- Numbers are natural numbers, and `uintptr_t` arithmetic has its wrap-around written out (`add64`,
-- `sub64`). An operation that the code runs under a spin lock is one step of the state. Trees and
-- trails are finite, so every walk of a tree is structural. The loop of `alloc_page` has fuel 3: the
-- longest chain of fallbacks visits three zones, as does the loop of `early_alloc_phys`. A loop of
-- string.cc that a byte of memory ends has fuel, and one more than the length of the string is
-- enough. The loop over the timers that have expired has fuel, and one more than the number of
-- timers is enough when callbacks add none.
--
-- Not modelled: large kernel allocations, the table of all slab allocators that is printed, DPCs and
-- RCU, timeouts and condition waits; the levels of the page tables, of which only the entries of
-- pages are kept; boot code, device drivers, assembly and printing, which act on hardware;
-- acpi/uacpi, a copy of another project; the tests in ktest.
pub mod Prelude
pub mod Dsl
pub mod Mm
pub mod Kernel
pub mod Util
mod Tests
