-- ===== src/Lib.antt =====
-- lbd is a block device for Linux: a kernel module that keeps a device in a sparse, LZ4-compressed
-- backing file (`qcow2-lz4`), logs its writes as CBOR, and is driven by lbdctl. This library models the
-- backing store (src/lbd_qcow2.c, src/lbd_qcow2.h, src/lbd_qcow2_format.h), the log of writes, the
-- dispatch of requests, the watchers and the commands to the control device (src/lbd_main.c), the CBOR
-- codecs (src/cbor_enc.h, src/cbor_dec.h), and of src/lbdctl.c the messages to and from the module, the
-- reader of the log and the creation of images.
--
-- Files and code:
--
-- Prelude passes the library's names on and has Boolean tests (Prelude/Tests), lists measured by native
-- numbers (Prelude/Lists) and machine words (Prelude/Words).
--
-- Format is src/lbd_qcow2_format.h: constants, flags of L2 entries and the big-endian accessors.
-- Format/Header has `lbd_qcow2_hdr_*` and `lbd_qcow2_hdr_set_*`, Format/Bytes the accessors' laws.
--
-- Cbor/Enc is src/cbor_enc.h, Cbor/Dec is src/cbor_dec.h, and Cbor/Write is `cbor_write_head` of
-- src/lbdctl.c. Cbor/Head has the bytes of a head as a specification; Cbor/EncLaws, Cbor/DecLaws,
-- Cbor/RoundTrip and Cbor/Text have the proofs. Cbor/Items is a sequence of encoder calls with one test of
-- the error at its end, as the callers make it, and Cbor/Items/Laws what it stores.
--
-- Kernel is what the driver calls and does not implement: files, memory, crc32c and LZ4, as a record
-- that every definition takes. Nothing is assumed of them, so that every call may fail at any time,
-- except in the theorems that take a `Disk` (Disk): laws of a file that works, and grows as it is
-- written. Where memory or a read may fail, the theorems without a `Disk` hold in that case too.
--
-- Qcow2/State has the structures, and the monad in which a C function is written: a value, a negative
-- error code, or a NULL dereference (`oops`), and the device. A pointer to a cache entry is the entry's
-- index. The lock is left out: every function that serves a request runs under it, but for the call of the
-- miss handler. The scratch buffers are left out too, but not the failures of their allocation.
-- Qcow2/Space has `lbd_qcow2_alloc_space`, `lbd_qcow2_free_extent` and the functions beside them.
-- Qcow2/FreeList is the list of extents that a chain of tombstones on disk stands for; FreeList/Fit and
-- FreeList/Model are the allocator on such lists. Qcow2/OnDisk, Space/Scan, Space/Free, Space/Alloc and
-- Space/Safety lead from the code to it; Space/Total is about allocation where reads and writes fail.
-- Qcow2/Cache has the two searches that both caches share, and Cache/Search what they find. Qcow2/L2 has
-- `lbd_qcow2_l2_get`, `lbd_qcow2_l2_flush` and `lbd_qcow2_l2_alloc`; L2/Invariant, L2/Load, L2/Fetch and
-- L2/Get have the cache's invariant, its proof, and the table that is loaded, L2/Image and L2/Flush the tables on disk. Qcow2/Cluster has
-- the cluster cache with `lbd_qcow2_cl_load`, Cluster/Invalidate and Cluster/Zero its invariant, and Qcow2/Base the base layer's
-- `lbd_qcow2_base_read_cluster`.
-- Qcow2/Read, Qcow2/Store and Qcow2/Init have `lbd_qcow2_read`, `lbd_qcow2_write` and
-- `lbd_qcow2_discard`, and opening, closing and reloading. A request is its sector with the lengths or
-- the contents of its segments; the miss handler, which is in src/lbd_main.c, is a parameter.
-- Read/Size and Store/Size say that both paths leave the size of a cluster alone, and Read/Loop and Store/Loop
-- that their loops therefore end. Qcow2/Swap has `lbd_qcow2_base_init`, `lbd_qcow2_base_destroy` and
-- `lbd_qcow2_swap_base`, with the calls for the file as a record; Swap/Ends, Swap/Attached, Swap/Reload and
-- Swap/Swapped follow the device and the open files through all their ways out. Store/Place is about the space that a write takes, Init/Header about the validation of the header.
--
-- Log is the part of `struct lbd_device` that the log uses, and the calls of the file system and the clock
-- behind it (`LogKernel`). Log/Name has labels and file names, Log/Entry the records as CBOR items,
-- Log/Buffer `lbd_log_flush` and `lbd_log_buf_append`, Log/Segment the segments from `lbd_begin_segment`
-- to `lbd_finalize_log`, and Log/Request the handlers of requests from `lbd_do_read` to `lbd_work_fn`,
-- which call the backing store and then the log. Log/Entry/Bounds is about the sizes of records,
-- Log/Buffer/Frame about what the buffer leaves alone, and Log/Buffer/Stream about the stream: what the
-- segment's file holds, and behind it what waits in the buffer. It rests on `LogDisk`, the laws of a
-- file that can be opened empty and grows at its end. Log/Segment/Begin, Log/Segment/Rotate,
-- Log/Request/Entries, Log/Request/Replies and Log/Request/Dispatch follow the stream through a rotation
-- and through requests.
--
-- Ctl/Watcher is the ring of events of `struct lbd_watcher`, and Ctl/Watcher/Queue the bounded queue that it
-- implements. Ctl/Command has the parser of `lbd_ctl_write` and the writers of src/lbdctl.c;
-- Command/Reading and Command/Writing have the laws of both sides, Command/RoundTrip the parser on any
-- command, and Command/Sent the way of each command from its writer to the parser. Ctl/Miss has
-- the record of a miss handler. Ctl/Read has `lbd_ctl_read`, with the events that come between its look at
-- the queue and its taking one off, and `lbd_ctl_poll`; Read/Loss is about the queue behind a read, and
-- Read/Deliver about a read where poll reports an event. One reader uses a descriptor at a time.
-- Ctl/Events has the decoders of src/lbdctl.c for these events, and Events/RoundTrip leads from
-- the module's encoder to them.
--
-- Reader is `lbdctl log`: Reader has `read_exact` over read(2), which may return fewer bytes than asked for,
-- Reader/Cbor and Reader/Skip the readers of CBOR, Reader/Crc the CRCs, and Reader/Segment `cmd_log_cbor`,
-- whose result is what is printed. Reader/Laws has what a file promises and what `read_exact` makes of it,
-- Reader/Parses readers that take certain bytes, and Reader/CborLaws, Reader/Entries, Reader/Records,
-- Reader/EndOfFile and Reader/Torn lead from a head to a segment that is cut off anywhere. Reader/Shrinks,
-- Reader/Terminates and Reader/Depth are about how many bytes each reader leaves, on any file.
--
-- Image is `lbdctl create`: the arguments, the layout and the writing of an empty image. Image/Header is about
-- the layout and the header, and Image/Fresh about the file.
--
-- Tests has a kernel with a memory disk, and the theorems at concrete inputs.
--
-- Bounds and fuel: an integer keeps its wrap-around where the code computes with it (`% 2 ^ w`, `add64`).
-- The loops over a request run on fuel equal to the bytes that are left, since every round takes at least
-- one; the scan of the free list runs at most `LBD_QCOW2_FREE_SCAN_LIMIT` rounds, as in the code, and a
-- read is retried at most three times. `read_exact` runs as many rounds as bytes are asked for, since each
-- round takes one at least; the loop of `lbdctl log` takes a round for each entry and one more, and
-- each entry and each item nested in `cbor_skip` takes a byte, so that rounds and a depth above the size
-- of the file are enough. The log's buffer has 5 MiB, and a request at most 128 KiB.
--
-- Not modelled: posting, answering and freeing a miss in src/lbd_main.c, where the lock sections of
-- several threads interleave; adding and removing devices, the swap command and the ioctls in src/lbd_main.c, which are
-- locks and registration with the kernel for the most part, and how a sleeping reader is woken; of
-- src/lbdctl.c the printing, and the commands that convert, extract and compact images or only call ioctl; the
-- LZ4 copy in src/lz4, which is third-party code; the Go programs.
pub mod Prelude
pub mod Format
pub mod Cbor
pub mod Kernel
pub mod Disk
pub mod Qcow2
pub mod Ctl
pub mod Log
pub mod Reader
pub mod Image
pub mod Tests
