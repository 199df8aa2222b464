-- ===== src/Lib.antt =====
-- A model of Remus, a C++ library for RDMA: `rdma/include/remus` of this repository.
--
-- Parts, and the files that model them (paths in parentheses are from the repository's root):
--
-- * RdmaPtr (rdma/include/remus/rdma_ptr.h): a pointer is its word `raw_`; the masks and shifts of
--   the code are kept, and RdmaPtr/Fields reads them as arithmetic. `sizeof(T)` is a parameter.
-- * RingCounter (`ring_counter_t` of rdma/include/remus/ring.h): the counters and the vector that
--   a thread passes by reference are one record. RingCounter/Queue is the abstract queue of taken
--   slots, RingCounter/Shows says when a ring stands for one.
-- * RingBuf (`ring_buf_t` of rdma/include/remus/ring.h): the map of blocks is an association list
--   with the order of insertion; the code does not depend on the order of `unordered_map`.
-- * Config (rdma/include/remus/cfg.h): the values of the command-line flags; Config/Args is `ARGS` and
--   how a program loads them.
-- * Rand (`rdtsc_rand_t` of rdma/include/remus/util.h): the generator; its first seed is a parameter.
-- * MnAllocPolicy (rdma/include/remus/mn_alloc_pol.h): which segment the next allocation tries.
-- * QpSchedPolicy (rdma/include/remus/qp_sched_pol.h): which lane the next operation takes.
-- * Barrier (`arrive_control_barrier` of rdma/include/remus/compute_thread.h): the barrier word and
--   the threads that use it; a list of thread numbers is an interleaving, and one step is one RDMA
--   operation.
-- * BumpAllocator (`BumpAllocator` of rdma/include/remus/compute_thread.h): the classes and local
--   lists, and in BumpAllocator/Global the loop over the segments of the memory nodes, on fuel; the
--   number of all segments is enough under GLOBAL_RR. The four functions that
--   `try_allocate_global` is given are BumpAllocator/Remote, a record of operations and of the laws
--   of RDMA on words of remote memory. BumpAllocator/Heap is `allocate` and `deallocate` of
--   `ComputeThread`.
-- * ComputeNode (`ComputeNode` of rdma/include/remus/compute_node.h): the tables of connections,
--   keys and segments, and the slices of the buffer that the threads share. The address of the
--   buffer is a parameter. ComputeNode/Connect is `connect_local`, `connect_remote` and the waits
--   between the attempts to connect; what a connection delivers is a parameter.
-- * RdmaOps (rdma/include/remus/rdma_ops.h): the work requests, `Post`, `Poll` and `PollAsync`. The
--   device and the memory of the process are RdmaOps/Ibv, a record of operations; RdmaOps/Simulator
--   is a small one for the tests.
-- * ComputeThread (`ComputeThread` of rdma/include/remus/compute_thread.h): the state of a thread and
--   the objects that take slots, buffers and lanes. ComputeThread/Operations is Read, Write,
--   CompareAndSwap and FetchAndAdd; ComputeThread/Sequences and ComputeThread/Batches are ReadSeq and
--   WriteSeq; ComputeThread/Local, Roots and Life are local memory, the root pointer with New and
--   Delete, and the constructor, the destructor and the test for leaks.
-- * SimpleAsync (rdma/include/remus/simple_async_compute_thread.h and simple_async_result.h): the
--   operations as coroutines; SimpleAsync/Handles is who owns the handle of a coroutine.
-- * Endpoint (rdma/include/remus/util.h, and `initialize_ep` and `connect_loopback` of
--   rdma/include/remus/compute_node.h): devices, their ports, and how an endpoint is made. The calls of
--   the RDMA libraries are parameters, and the transitions of a queue pair follow their manual.
-- * Atomic (rdma/include/remus/Atomic.h): a remote word as an atomic.
-- * MemoryNode (rdma/include/remus/mem_node.h): the connections that a memory node waits for and the
--   events of its endpoint.
-- * Segment (rdma/include/remus/segment.h): where a segment is put and how it is made.
-- * Connection (rdma/include/remus/connection.h): sending and receiving vectors.
-- * ArgMap (rdma/include/remus/cli.h): the parser of the command line and its getters.
-- * RootTest (rdma/test/root.cc, which rdma/test/helloworld.cc repeats): the program that puts the parts
--   together. RootTest/Setup is what a machine does before its threads run; a list of worker numbers is
--   an interleaving of the workers, who use the barrier of Barrier.
--
-- An operation of a thread goes through the parts in this order: QpSchedPolicy chooses the lane,
-- ComputeNode gives the connection and the key, RingCounter the slot and RingBuf the staging buffer,
-- and RdmaOps fills in the request, posts it and polls. A MemoryNode sends its regions over a
-- Connection, and a ComputeNode saves them.
--
-- A call ends in an `Outcome`: a value, a failed assertion or `REMUS_FATAL`, undefined behaviour of
-- C++ where the source indexes without a test, or fuel that ran out. Unsigned integers wrap as in
-- C++, also in sums with the size of a request, and numbers are narrowed where the code narrows them:
-- the id of a machine to 16 bits, the number of threads to an int at the barrier. The loop of `ring_counter_t` takes one
-- round more than there are slots as fuel, that of `ring_buf_t` one more than there are entries.
--
-- A value is the bytes of an object read as a number, and a flush or a fence of the processor changes
-- nothing. Keys keep their bits. Loops that poll run on fuel; one turn more than the polls up to the
-- completion, and one for the last test, are enough. A thread has one ring of sequences, as the code
-- only uses the coroutine with index 0, and the completions that it polls name its own counters.
--
-- Not modelled: the output, the calls of the system and of the RDMA libraries (sockets, memory
-- registration, queue pairs, completion queues), which are parameters where the code uses what they
-- return, `fetch_add` of rdma/include/remus/Atomic.h, and the tests and the benchmark but for the
-- program of rdma/test/root.cc.
pub mod Prelude
pub mod RdmaPtr
pub mod RingCounter
pub mod RingBuf
pub mod Config
pub mod ArgMap
pub mod Rand
pub mod MnAllocPolicy
pub mod QpSchedPolicy
pub mod Barrier
pub mod BumpAllocator
pub mod Segment
pub mod Connection
pub mod ComputeNode
pub mod RdmaOps
pub mod ComputeThread
pub mod Atomic
pub mod SimpleAsync
pub mod MemoryNode
pub mod Endpoint
pub mod RootTest
