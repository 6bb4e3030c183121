-- ===== src/Lib.antt =====
-- The NVM burst buffer: a writer stores blocks of volumes in a non-volatile memory, and background
-- threads move them to files. An inode is the unit: it is taken from a queue of free inodes, marked
-- dirty by a writer, written to its file by a flusher, marked clean by a syncer after a storage
-- barrier and freed by a balloon thread. The parts meet in the tables of the memory and in the
-- queues between the threads.
--
-- Prelude: shared tests, lists, integers and bit masks.
-- Avl (src/nvm0avltree.cc, include/nvm0avltree.h): the search tree of block numbers. A tree is a
--   data type, a root is a record with the counters; each function of the file but
--   get_invalid_ratio, a quotient in floating point, is a definition of the same name. A null
--   pointer that is followed answers none. insert_fix and delete_fix are the rebalancings that
--   follow the recursive calls. The search for an invalid node is a walk with a work list on fuel,
--   one round for each node of the tree; rebalance_tree_node runs once for each invalid node.
-- LfQueue (include/nvm0lfqueue.h): the queue of tickets with 64-bit counters. LfQueue has the
--   methods called by one thread; LfQueue.Threads has the accesses of enqueue and dequeue as single
--   steps of many threads. A thread waits by making no step. The counters are taken not to wrap
--   within a run of the threads.
-- Pool (include/nvm0nvm.h, nvm0inode.h, nvm0volume.h, src/nvm0nvm.cc): the tables, the queues and
--   the counters as one record. An operation runs from its start to its end; a wait without end
--   and an exit answer none. A queue is a list with a capacity, as LfQueue.Refine has it.
--   Pool.Layout and Pool.Blocks: nvm_structure_build of src/nvm0nvm.cc, and writeDataToNvmBlock of
--     src/nvm0write.cc; the sizes of the structures are parameters.
--   Pool.Start: nvm_system_init of src/nvm0nvm.cc, after recovery and without the threads.
--   Pool.Recovery: recovery_start of src/nvm0nvm.cc; the descriptors of open() are a parameter.
--   Pool.Stop: the flush of nvm_system_close of src/nvm0nvm.cc, after the threads have ended.
--   Pool.Flush: nvm_flush and a round of flush_thread_func of src/nvm0flush.cc. The loop that takes
--     inodes has fuel for the inodes asked for and those in the queue: each round lowers one. The
--     loop that writes has fuel for one round more than inodes, and each round writes one at least.
--     Whether stat() finds a file, and pwritev writes all its bytes, is a parameter.
--   Pool.Sync: nvm_sync of src/nvm0sync.cc, with SYNC_OPTION at its default, 1.
--   Pool.Volumes: get_volume_entry_idx and alloc_volume_entry_idx of src/nvm0volume.cc.
-- HashList (src/nvm0list.cc, src/nvm0hash.cc): the list of invalid hash nodes, over a store of
--   nodes; a pointer is the number of a node.
-- Hash (src/nvm0hash.cc, include/nvm0hash.h): the hash table of a volume. The third-party map from
--   block numbers to nodes is a record of operations with the laws of a map, CuckooMap, which the
--   operations take as a parameter. Hash.Lookup and Hash.Change see a table as a map to inodes.
-- Buffer (src/nvm0write.cc, src/nvm0balloon.cc): the pool with the tables of its volumes. A buffer
--   knows which entries have a hash table that was set in this process; to follow the pointer of
--   another entry answers none. hold_node is get_hash_node_with_lock; write_rounds is the loop of
--   nvm_durable_write, on fuel for each block of the write; fill_free_inodes is the body of a
--   balloon thread, on fuel for each inode in its queue. Buffer.Wf and Buffer.Held have the
--   invariant; Buffer.Start and Buffer.First join them to nvm_system_init. The proofs on
--   nvm_durable_write take the block size that the program has, 16384, and at most 2 ^ 26 inodes,
--   since get_inode_entry_idx_from_hash cuts a byte offset to 32 bits. A mutex that an operation
--   locks and unlocks itself is free between the operations.
-- Cycle: the way of an inode through the queues. Cycle.Flow has the invariant of the queues, with
--   the inodes that a flusher has in its hands; Cycle.Take, Cycle.Pass, Cycle.Flush, Cycle.Sync and
--   Cycle.Write follow the operations, whenever they return; Cycle.System lets them take turns, as a
--   step relation with an event for each write, and Cycle.Run starts it with nvm_system_init. An
--   operation is one step, for a writer a round of its loop; steps do not overlap.
--
-- Not modelled: src/nvm0monitor.cc, which prints gauges; src/ut0lflist.cc and include/ut0random.h,
-- which the other parts do not use; the shared memory that stands for the device; the insides of the
-- third-party hash map; the branch of nvm_durable_write under WRITE_DEBUG, which the build does not
-- define; the wait of a balloon thread, which the code does not call; the release of memory in
-- nvm_system_close.
pub mod Prelude
pub mod Avl
pub mod LfQueue
pub mod Pool
pub mod HashList
pub mod Hash
pub mod Buffer
pub mod Cycle
