-- ===== src/Lib.antt =====
-- copy2: a copier of directory trees that drives asynchronous direct I/O.
--
-- A crawl finds the files of the source (copy2.cpp, processNonDir and processDir), decides for each
-- whether it is to be transferred, and puts a file job into the job queue. The copy scheduler
-- (copy2.cpp, schedulerUpdate and what it calls) takes file jobs from that queue, cuts each into blocks
-- (filejob.h), and drives for every block a read of the source, a write to a partial file at the
-- destination and, on demand, a read back of it. A file whose blocks are all finished goes to the finish
-- queue, where it is given its final size, name and attributes. Hard links are recognised by two
-- tables of inodes over an LMDB store (hlinkstate.cpp). All system calls go through wrappers that
-- check their paths and bound the number of open descriptors (syscalls.h). Strings and queues live in
-- arenas that the program makes at its start (allocator.cpp): the path of a file is a chain of counted
-- parts, each after the part for its directory. A second program, pace-removeextra.cpp, removes from
-- a destination what its source has not.
--
-- Files:
--   Prelude   what the other files share: numbers, Boolean tests, lists, 64-bit words, chains of
--             results that may fail.
--   Allocator allocator.cpp, createAllocator, AllocatorAllocate and AllocatorFree; the files under it
--             prove that a block goes back where it came from (Regions, Owner) and how the memory is
--             divided (Layout, Created).
--   Filejob   filejob.h: block sizes and ranges, FileCopyJob and BlockCopyJob.
--   Memory    copy2.cpp isZero and the bytes of the copy buffer.
--   Shared    sharedstate.h, and the interface of the code of other projects that blocks use: buddy
--             allocator, hash and concurrent queue.
--   Scheduler copy2.cpp, the handlers of a block job (Block), the passes over the slots (Loop) and an
--             iteration with its submissions and completions (Tick); the other files under it prove
--             what becomes of one block (Schedule, Step, Transfer), of a row of them (Rows), of a slot
--             (Slots), and of all slots in a pass (Passes) and an iteration (Completions).
--   PathOk    syscalls.h path_ok.
--   Strings   allocator.cpp and allocator.h, the string parts: their reference counts (Counts,
--             Keeps, Release, Build), what they spell (Spells) and the copying of it (Copy, Realloc,
--             RoundTrip).
--   Queue     queue.h: the bounded queues between the parts, as steps of threads (Bound), and the
--             memory of their blocks (Blocks).
--   Spinlock  spinlock.h, as steps of threads (Exclusion).
--   RemoveExtra pace-removeextra.cpp: its sets (Sets), which entries are extra and which common
--             (Extra, Common), its semaphore (Slots), that a removal ends (Returns), and that what
--             both sides have stays (Safety).
--   HLink     hlinkstate.cpp, the cached inode tables (Tables), the registration of links and what a
--             transfer does to them (Links); Lmdb is the interface of the store.
--   World     the part of sharedstate.h that the crawl and the finish processors change, and the
--             actions on it.
--   Syscalls  syscalls.h, the wrappers, over a Kernel that stands for the operating system: their slots
--             and descriptors (Descriptors), and what a task owes of them (Debts).
--   Fdrc      fdrcguard.h, the counted descriptors of directories.
--   Remove    copy2.cpp recursiveRemove, and its slots (Slots).
--   Finish    copy2.cpp finishProcessorOne and finishProcessor.
--   Crawl     copy2.cpp processNonDir and readSymlink, and in Directory processDir.
--
-- Bounds: a size_t is a number below 2 ^ 64 and keeps its wrap-around (add64, sub64, mul64); int jobno
-- keeps 32 bits and its sign. bit_ceil_from has 64 doublings as fuel, enough for any value whose
-- result fits a size_t. The invariant of a file asks that the end of its last block fits a size_t and the
-- number of its blocks an int (IsCountable). The removal of a tree has the depth of the tree as fuel, the
-- registration of a link the number of its repetitions, and the reading of a symbolic link the
-- number of its tries. The release of a string has the number of parts in the arena as fuel, since each
-- turn but the last frees one, and the copying of a string the number of its own parts.
--
-- The transactions of hlinkstate.cpp are all the one write transaction, as getRDOnlyTxn begins them; each
-- thread is taken to have begun its own.
--
-- Not modelled: the locks and the interleaving of threads, except in Queue and Spinlock; the checks that
-- ALLOC_DEBUG adds to the arenas; logging and the command line. World keeps its strings apart from
-- Strings: it has a string for each reference, and leaves their counts out.
-- The code of other projects (LMDB, xxHash, concurrentqueue, buddy_alloc) is a parameter wherever it
-- is called.
pub mod Prelude
pub mod Allocator
pub mod Crawl
pub mod Fdrc
pub mod Filejob
pub mod Finish
pub mod HLink
pub mod Memory
pub mod PathOk
pub mod Queue
pub mod Remove
pub mod RemoveExtra
pub mod Scheduler
pub mod Shared
pub mod Spinlock
pub mod Strings
pub mod Syscalls
pub mod World
