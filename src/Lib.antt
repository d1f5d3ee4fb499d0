-- ===== src/Lib.antt =====
-- A verification library for parts of WOS, an x86-64 operating system in C: its kernel's data
-- structures and state machines, modelled from the sources.
--
-- The parts and how they interact:
-- - Prelude, Abi: the names that all modules share, native numbers, lists measured by them, and the
--   error codes of include/wabi.h. A call that returns a value or a negated code is a `Result`.
-- - Ring: the ring buffer that kernel/fs/pipe.c and kernel/fs/socket.c write out by hand (an array,
--   the places of the next write and the next read, a count). `contents` is its abstract view, a
--   list; Ring/Laws relates `put`, `advance`, `fill` and `drain` to it. Pipe and Socket use it.
-- - Bits: single bits of a word, used by Frames and for the role masks in User.
-- - Pipe: kernel/fs/pipe.c and kernel/include/pipe.h. `read` and `write` are `pipe_read` and
--   `pipe_write`; a call that has to wait is an outcome of its own, and is resumed on the bytes
--   that are left. Pipe/Calls is about one call, Pipe/Stream about any sequence of calls, Pipe/Refs
--   about reference counts and readiness.
-- - KHeap: kernel/mm/kheap.c. The chain of headers is a list, each header with its address. What
--   the memory holds elsewhere is a parameter of `kfree`, which reads it at a pointer that is no
--   payload's; where that passes for a header, the source writes to it, and the model ends as
--   `corrupted`. `kmalloc`, `kfree`, `coalesce_with_next` and the figures have the source's names.
--   KHeap/Alloc, Free, Holds, Undo, Release and Panic lead to KHeap/Valid, which has the theorems
--   about whole calls.
-- - Frames: kernel/mm/pmm.c. The bitmap is a function from word numbers to 64-bit words
--   (Frames/Bitmap); Frames/Alloc is about single frames, Frames/Runs about contiguous ones.
--   ALIGN_UP is the mask that it is in kernel/include/types.h.
-- - Sched: kernel/proc/sched.c and the thread record of kernel/include/proc.h, for any number of
--   processors. The kernel lock makes each call one step; Sched/Steps has the step relation,
--   Sched/Exclusive its invariant, Sched/Walk and Sched/Fair the choice of the next thread.
-- - Bytes, Memory: kernel/lib/string.c. Strings are lists of bytes without their NUL; memory is a
--   function from addresses to bytes, and `memcpy` and `memset` move whole words where the
--   addresses are aligned, as in the source.
-- - User: kernel/fs/user.c, the accounts. User/Storage is the interface of the filesystem calls
--   that it makes (wfs_lookup, wfs_create, wfs_truncate, wfs_write, wfs_read), a record that is a
--   parameter of the model; User/Digits are the decimal numbers, User/Lines the two file formats,
--   User/Hash the password hash, User/Find the search of the table, User/Rights who may change
--   what, User/Add the new accounts, User/Boot what `user_init` reads.
-- - Socket: kernel/fs/socket.c and kernel/include/socket.h. Socket/Stream is about the bytes,
--   Socket/Descriptors about the files that travel with them, Socket/Names about listeners and
--   connections, Socket/Listeners about any sequence of calls on their table.
-- - Exec: operations that change a state and return a value or a code, with bind; Exec/Keeps has
--   the rules by which a predicate is kept by an operation that is built from others.
-- - Wfs: kernel/fs/wfs.c and include/wfs.h. Wfs/Device is the driver below, `sectors_read` and
--   `sectors_write`, a parameter of all the rest, and what it promises of reads and writes that
--   succeed or fail. Wfs/Cache is the block cache with `block_read`, `block_write` and
--   `blocks_read`; in Wfs/Cache/Refines it implements a plain store of blocks. Wfs/Words and
--   Wfs/Layout are the structures as bytes. Wfs/Volume has the static variables as a record, the
--   bitmap and `block_alloc` and `block_free`; Wfs/Inodes, Mapping, Files, Directories, Paths and
--   Mount have the other functions in the order of the source, under its names. A local `in` with
--   `dirty` that `bmap` changes is the state `Mapping`. Wfs/Kept goes through all the operations
--   for the invariant of the superblock and the bitmap, Wfs/Calls is about any sequence of calls.
--   Wfs/Volume/Stored says what a load and a store mean, Wfs/Volume/Gives what an operation answers
--   that changes no block; they lead to Wfs/Inodes/Written and, over Wfs/Mapping/Found and
--   Wfs/Files/Runs, to Wfs/Files/Reads, over Wfs/Mapping/There and Wfs/Files/Updated, Writes,
--   WriteLoop, WriteEnd and Outside to Wfs/Files/WriteBack.
-- - Shm: kernel/mm/shm.c. The two loops of `find_region` are `sweep` and `sweeps`; Shm/Regions has
--   what it finds. Shm/Objects has the objects and the calls under the source's names, over Frames
--   and Memory, with `paging_map` and `paging_unmap_keep` as a parameter; Shm/Objects/Apart and
--   Kept follow the table of mappings through the calls.
-- Each component has a module Tests with runs and with its theorems at concrete inputs.
--
-- Bounds and fuel. A 64-bit or 32-bit value that can wrap has its `% 2 ^ w` written out. The loops
-- that write into a ring run on three rounds (`write`, `send`): each round but the last fills the
-- ring or uses up the input. The loops over ranges of frames run once for each frame, `find_run`
-- once for each frame below the limit of the identity map, `pick_next` MAX_THREADS + 1 times, the
-- hash 4096 times, and the digits of a 64-bit number are at most 20; these are the sources' own
-- bounds, and there all other recursion is on a list. `drop_queued_fds` has as many rounds as its
-- caller gives; the number of queued files is enough where giving one back adds none.
--
-- In Wfs, `wfs_read` and `wfs_write` run on one round more than there are bytes, as each round
-- moves at least one; the loops over tables, directories, inodes and blocks on the number of their
-- entries; a run of blocks on 64 rounds, a walk up on 256 and a path on its length, the sources'
-- bounds. In Shm, `find_region` sweeps on USER_MMAP_TOP rounds, as each but the last raises an
-- address below it.
--
-- Not modelled: the boot code, interrupts and devices (kernel/arch, kernel/drivers, kernel/acpi),
-- the network (kernel/net), page tables, processes and system calls (kernel/mm/paging.c,
-- kernel/proc), the other filesystems (kernel/fs/vfs.c, ramfs.c), the libraries and programs of
-- user space (lib, app) and the tools. Of the modelled files: the payload bytes of the kernel heap
-- and what happens after a release has corrupted it, the placement of the frame bitmap at boot
-- (`pmm_init`), the switch of stacks and address spaces in `schedule`, the store of socket
-- endpoints with its reference counts (`vfs_fd_drop`, which may free endpoints, is a parameter of
-- `drop_queued_fds`), what is in the buffer of a `wfs_read` that fails, the real-time clock behind
-- `now`, and messages that are only printed.
pub mod Prelude
pub mod Abi
pub mod Ring
pub mod Bits
pub mod Pipe
pub mod KHeap
pub mod Exec
pub mod Frames
pub mod Sched
pub mod Bytes
pub mod User
pub mod Shm
pub mod Socket
pub mod Memory
pub mod Wfs
