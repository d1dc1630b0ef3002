-- ===== src/Lib.antt =====
-- A model of the program of this repository, which copies one source file to many outputs.
--
-- The program has a choice of engines behind `main` (source/main.cpp): mode 1 is
-- `perform_readv_broadcast`, mode 2 `perform_uring_broadcast`, mode 3 `perform_splice_broadcast`,
-- and modes above it `perform_tee_broadcast`. The first one copies by system calls, in a tree of
-- rounds; each of the others asks the kernel for its transfers through the submission queue of
-- liburing, and counts the completions that come back. `Network::broadcast`
-- (source/Network/broadcaster.hpp) is a further engine, an event loop from one reader to many
-- clients, `read_file_request` (source/Network/sender_pipe.h) reads a file through a ring, and
-- `RingBuffer` (source/IOuring/RingBuffer.hpp) is a container on its own.
--
-- Files and what they model:
--   Base and its children: shared names; they model no code. Base/Bits is about the disjunction of
--     bit fields, Base/Sums about sums that do not depend on order, Base/Positions about the items
--     of a list by position.
--   RingBuffer: the class of source/IOuring/RingBuffer.hpp as a record of its fields, with `put`,
--     `get`, `peek`, `is_full` (isFull) and `is_empty` (isEmpty). RingBuffer/Fifo is the queue that
--     it promises, RingBuffer/Refine the proof.
--   Liburing: what the engines use of liburing and the kernel, as a record of operations and laws
--     that is a parameter of the engines; Liburing/Sim is a value of it. Liburing/Queue says what
--     has been asked of a ring so far, Liburing/Push is an entry that is filled without a test,
--     Liburing/Links the chains that the links of the requests of a submission make.
--   IoHandle: source/file_system/IO_Handle.hpp and IO_Handle.cpp. IoHandle/Calls is any use of
--     handles as a sequence of calls, IoHandle/FileSize `get_file_size`.
--   FileIo: the file system calls and the allocator, as a record of operations; FileIo.Reliable and
--     FileIo.Counting are what they promise, FileIo/Sim a value of it.
--   Kernel: how the kernel carries out the requests of the engines, as a function on its state, with
--     what the manuals say of whole transfers: by splice and tee, of which Kernel/Sim is a value, and
--     in Kernel/Vectors by readv and writev, of which Kernel/Memory is one.
--   ReadvTree: source/IOuring/readv_broadcaster.hpp, `submit_read_write` and
--     `perform_readv_broadcast`; ReadvTree/Window, Copy and Memory are about the first of them,
--     ReadvTree/Nodes, Rounds and Tree about the second.
--   Splice: source/Network/broadcastSplice.hpp: `perform_splice_broadcast` in Splice, `prepare_splice`
--     in Splice/Prepare. Splice/Delivery is about the bytes that reach the outputs.
--   Tee: source/Network/broadcastTee.hpp: `perform_tee_broadcast` in Tee, `pack_data` in Tee/Pack,
--     `prepare_tee` and `prepare_splice` in Tee/Prepare, `process_cqes` in Tee/Cqes.
--     Tee/Delivery is about the bytes that reach the outputs.
--   UringVec: source/IOuring/uring_vec_broadcaster.hpp: `RequestContext` with its
--     constructor (new_context) and destructor (free_pointers), `submit_readV_writeV`
--     (submit_readv_writev) and `perform_uring_broadcast`. UringVec/Delivery is about the bytes that
--     reach the outputs.
--   SenderPipe: source/Network/sender_pipe.h: `read_file_request` with the calls that it makes.
--     SenderPipe/Reads, Loop and Ends are about its read loop, SenderPipe/Request about the whole.
--   Main: source/main.cpp with source/file_system/Manage_Pipe.hpp, over the system calls and the
--     engines as parameters; Main/Program is `main` itself, Main/Laws what the parameters promise
--     about descriptors, Main/Files about files by their names and Main/Fifos about the named pipes,
--     whose removal Main/Removed is about. Main/Copies puts the engine of
--     ReadvTree in the place of mode 1, on the files that Main/Opened has open; what the engine
--     leaves alone is in ReadvTree/Frame.
--   Mpi: source/mpi/broadcaster.cpp with comms.hpp: `broadcast` and `test_comms` on all ranks.
--   Server: source/Network/Server.h, `server_socket` over the socket calls.
--   Broadcaster: source/Network/broadcaster.hpp, each round of its loop as `handle` and the loop as
--     `event_loop`; Broadcaster/Lost is about the end of its last client.
--   Request: source/Network/Request.hpp and Request.cpp.
--
-- How the code is read. A C++ function returns an `Outcome`: a value, an exception, a call of
-- `exit`, undefined behaviour, or a wait that never ends. A submission queue is seen through the
-- requests that are queued and the batches that were submitted; an entry that
-- `io_uring_get_sqe` gives is the ring with that entry filled. What the kernel answers is an
-- argument: the list of waits, of batches of completions, or the request that completes next.
-- `size_t` sums that can wrap are taken modulo 2 ^ 64; offsets and counts that the code keeps
-- below the size of the file are plain numbers. The `int`s of mode 1 count its nodes, and its
-- theorems ask for fewer than 2 ^ 31 of them. Masks of low bits are remainders.
--
-- Loops over the chunks of a file recur on fuel, one more than the size of the file: each round
-- adds at least one byte, and the theorems show that the loops end by their own test.
--
-- The contents of files are modelled for all four engines, those of pipes for modes 3 and 4, and
-- those of blocks of memory for modes 1 and 2; elsewhere the theorems say which transfers are asked
-- for. The iterations of one round of mode 1, which threads share, are taken in any order, each as a
-- whole: they read and write different files. The requests of mode 2 are taken in any order that
-- keeps each chain of linked requests in its order, those of mode 3 in any order that keeps those of
-- one output in theirs; the links alone do not ask for that much.
--
-- Not modelled: time, the printed reports, a failing `io_uring_submit`, and
-- the two headers that are wholly commented out (source/IOuring/cat_uring_batch.hpp and
-- cat_uring_batch_async.hpp).
pub mod Base
pub mod RingBuffer
pub mod Liburing
pub mod IoHandle
pub mod FileIo
pub mod Kernel
pub mod ReadvTree
pub mod Splice
pub mod Tee
pub mod UringVec
pub mod Broadcaster
pub mod Request
pub mod SenderPipe
pub mod Main
pub mod Mpi
pub mod Server
