-- ===== src/Lib.antt =====
-- The verification of bitar, a library that compresses and decompresses Arrow buffers with the compress
-- devices of a BlueField DPU, through DPDK.
--
-- The parts of the program and how they interact. CompressDriver (src/driver.cc) finds the devices and
-- splits the worker lcores among them; each lcore of a device stands for one of its queue pairs. A
-- CompressDevice (src/device.cc) checks its configuration (src/config.cc), allocates its memory and runs
-- Compress() and Decompress() on a queue pair: it assembles a burst of operations, enqueues it, dequeues
-- what the device has finished, and goes on until no input and no pending operation is left. The memory
-- is in src/memory.cc: DeviceMemory keeps the memzones that hold compressed data, in a pool or
-- occupied, and QueuePairMemory keeps the operations of a queue pair, from their assembly until they are
-- recycled or released. DeviceMemory allocates by src/memory_pool.cc, whose tracker knows the memzone at
-- each address.
--
-- Which file models which part:
-- - Base and its children: tests on numbers, lists, results (arrow::Status and arrow::Result) and the
--   chains of calls that ARROW_RETURN_NOT_OK makes. An operation of a class is a function from its state
--   to a result and its new state, which it has on an error, too.
-- - Rte: what the program takes from DPDK, as parameters. The answers of the allocation functions and of
--   the bursts depend on the number of the call, so the same call may be answered differently.
-- - Config: src/include/config.h and src/config.cc, with the transforms in Config/Transforms.
-- - MemoryPool: src/memory_pool.cc; its children are named for what they prove.
-- - DeviceMemory: the class DeviceMemory of src/memory.cc, with Preallocate(), Take() and Put().
-- - QueuePair: the class QueuePairMemory of src/memory.cc. QueuePair/Assemble has both overloads of
--   AssembleFrom(), QueuePair/Sizes has Preallocate(). An operation is kept by its pointer, so the array
--   of operations, the pending ones and those in the hands of the device share it, as in the code.
-- - Device: src/device.cc. Device.antt has the validation, Device/Setup Initialize(), EntryGuard() and
--   the destructor, Device/Bursts EnqueueBurst(), DequeueBurst() and the two loops, Device/Compression
--   Compress(), Decompress() and Recycle().
-- - Driver: src/driver.cc, and GetNextLcore() of src/util.cc.
-- - App: the demo of apps. App.antt has the sizes that apps/app_common.cc chooses and the split of the
--   input, App/Devices GetBlueFieldCompressDevices(), App/Input ReadData() with the functions it calls,
--   App/Targets the loops over the queue pairs, App/Sync EvaluateSync() on the queue pairs of Device,
--   App/Async the rounds of asynchronous compression, App/Evaluate the rest of EvaluateAsync(), App/Demo
--   Evaluate() and main(). The asynchronous calls run on other lcores; what a launch and a call answer in
--   a round, and how the calls of a round leave the memories of the devices, in whatever order they
--   interleave, are arguments there.
--
-- Bounds and fuel. Numbers are natural numbers, with the casts of the code to 16 and 32 bits written out;
-- products of an int are taken to fit. The loop in UpdateCompressedSegSize() has 17 rounds, one for each
-- bit of its start value; the one in ValidateWindowSize() has 257, one for each value of a byte and one
-- more; the one in GetNextLcore() has one for each lcore and one more; the one in Preallocate() has one
-- for each memzone that is asked for. The loops over the mbufs of a burst count their rounds down. The
-- loops of Compress() and Decompress() poll the device and have no bound of their own: their fuel is an
-- argument, and a run that needs more has no result. A device that leaves at most k
-- calls idle, and takes or hands out an operation at each other one, needs at most k + 1 rounds more than
-- twice the bytes, or the buffers, of the input and the operations that are assembled already.
--
-- Not modelled: the text of messages and what is logged; the bounds that a subspan() of the destination
-- checks, which Decompress() has compared with the size of the destination before; the contents of buffers, whose comparison is an
-- answer of memcmp(); threads, since a queue pair is used by one call at a time and the calls on the memory
-- of a device are taken one after the other; names and sockets; src/common.cc, which ends the process by a
-- call of DPDK; of apps, signal handling, the parsing of the command line, timing and printing; the build.
pub mod Base
pub mod Rte
pub mod Config
pub mod MemoryPool
pub mod DeviceMemory
pub mod QueuePair
pub mod Device
pub mod Driver
pub mod App
