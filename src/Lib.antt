-- ===== src/Lib.antt =====
-- The kernel library of KOS (bit maps, containers, locks), its blocking synchronization, its
-- physical frames and address spaces, its files and open handles, its keyboard and its debugger
-- stub.
--
-- The program is a C++ kernel for x86-64. Its core data structures are header files under
-- src/generic; the kernel's memory managers, its scheduler and its synchronization objects
-- (src/kernel, src/runtime) are built from them. A word (mword, size_t) is a number below 2 ^ 64
-- and wrap-around is written out.
--
--   Basics, Basics/Align           src/generic/basics.h: alignment and division rounded up
--   Bitmanip, Bitmanip/*           src/generic/bitmanip.h: masks, bit fields, and the word scans
--                                  multiscan and multiscan_rev, whose assembly (bsf or bsr and two
--                                  conditional moves) is one function on the loop's variables
--   Bitmap, Bitmap/*               src/generic/Bitmap.h, class Bitmap
--   Hierarchy, Hierarchy/*         src/generic/Bitmap.h, class HierarchicalBitmap: maps of 64 n bits
--                                  in L levels; the arrays of maps are a function of level and index
--   ManagedArray, ManagedArray/*   src/generic/ManagedArray.h: a slot holds raw bytes, an element, or a
--                                  link of the free stack; the allocator is a parameter
--   RingBuffer, RingBuffer/*       src/generic/Buffers.h, class RingBuffer
--   RegionSet, RegionSet/*         src/generic/RegionSet.h: std::set as a list in its order
--   SpinLock, SpinLock/*           src/kernel/SpinLock.h: the operations on the lock's memory, and the
--                                  ticket lock's callers as a step relation
--   Keyboard, Keyboard/*           src/devices/Keyboard.cc: the interrupt handler on the bytes that it
--                                  reads, and its tables; the letters of scan code set 2
--   Gdb, Gdb/*                     src/gdb/Gdb.cc: hexadecimal text, packets on the serial line, and
--                                  the handlers of requests
--   Intrusive, Intrusive/*         src/generic/IntrusiveContainers.h, class IntrusiveList: the links as
--                                  functions from addresses
--   Scheduler, Scheduler/*         src/runtime/Scheduler.h: the ready queues by priority
--   AddressSpace, AddressSpace/*   src/kernel/AddressSpace.h: the break of virtual addresses, and pages
--                                  that wait until no TLB can have them, with the processors as a
--                                  step relation
--   FrameManager, FrameManager/*   src/kernel/FrameManager.h: frames by page level, on hierarchical
--                                  bitmaps, and their owners as a step relation
--   Files, Files/*                 src/world/Access.h and src/world/Access.cc, class FileAccess: files
--                                  that lie in memory
--   Handles, Handles/*             src/runtime/SynchronizedArray.h: the table of open handles, and its
--                                  users as a step relation; the reference that a removal keeps across
--                                  its wait is the index of the slot, so that the array does not grow
--                                  meanwhile
--   Sync, Sync/*                   src/runtime/BlockingSync.h and src/runtime/SyncQueues.h: what a thread
--                                  does under an object's lock as a function, and the message queue, the
--                                  mutex and the semaphore with their callers as step relations
--
-- Bitmap scans words by Bitmanip, HierarchicalBitmap searches its maps by Bitmap, and FrameManager
-- keeps its frames in hierarchical bitmaps; AddressSpace gives frames back to it, as the list of
-- frames that `leave` releases. Handles keeps its elements in a ManagedArray,
-- and its waits are those of a condition in Sync. The message queue of
-- Sync keeps its messages in a RingBuffer. The queues of threads in Sync and Scheduler are lists;
-- Intrusive has the links that such a list stands for, and what an operation does to it. Each
-- component has the model in the file of its name, lemmas and theorems in the files below it, and
-- runs at concrete inputs in its Tests file. Prelude holds the shared names, Boolean tests, and
-- lemmas on words, lists and linear search.
--
-- A search of a hierarchy gets fuel 2 L + 1, which is enough: it climbs at most L levels and goes
-- down at most L. The loop of alloc in FrameManager has one round more than the level has frames,
-- which is enough because each round zeroes a frame behind the one before; the loop of release has
-- one more than the frames to release. What is out of the range of an array in the source is not
-- excluded by the type of the model; the theorems carry the range as a hypothesis where the code
-- relies on it.
--
-- A step relation takes as one step what the code does while it holds the object's lock, and lets
-- timeouts and cancellations come between any two steps.
--
-- Not modelled: third-party code (src/extern), the switch between threads, which is assembly, the
-- allocation of contiguous frames (allocRegion of src/kernel/FrameManager.h), page tables,
-- processes and system calls (src/kernel), machine setup and assembly (src/machine), the other
-- devices and the commands to the keyboard (src/devices), the debugger stub's entry from an
-- exception (handle_exception of src/gdb/Gdb.cc), test programs (src/main, src/user), and build
-- files.
pub mod Prelude
pub mod AddressSpace
pub mod Basics
pub mod Bitmanip
pub mod Bitmap
pub mod Files
pub mod FrameManager
pub mod Gdb
pub mod Handles
pub mod Hierarchy
pub mod Intrusive
pub mod Keyboard
pub mod ManagedArray
pub mod RegionSet
pub mod RingBuffer
pub mod Scheduler
pub mod SpinLock
pub mod Sync
