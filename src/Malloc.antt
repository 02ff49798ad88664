-- ===== src/Malloc.antt =====
-- The allocator of malloclab/src/mm.c.
pub mod Words
pub mod Blocks
pub mod Layout
pub mod Frames
pub mod Links
pub mod Steps
pub mod FreeList
pub mod FreeListAdd
pub mod Parts
pub mod Invariant
pub mod Listing
pub mod Access
pub mod Kept
pub mod Merging
pub mod MergeBoth
pub mod Settled
pub mod Joined
pub mod Coalesce
pub mod Free
pub mod Take
pub mod Split
pub mod SplitHeap
pub mod Place
pub mod Distinct
pub mod Fit
pub mod Extend
pub mod Allocate
pub mod Init
pub mod Owned
pub mod Owners
pub mod Copy
pub mod Client
pub mod Resize
pub mod Realloc
pub mod Calls
pub mod Tests
