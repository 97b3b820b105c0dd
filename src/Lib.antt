-- ===== src/Lib.antt =====
-- kv_study: a key-value store in C with four engines behind a framed TCP protocol, and snapshots.
--
-- The parts. The engines are a table of slots (kvs_array.c), a hash table with chains (kvs_hash.c), a
-- red-black tree (kvs_rbtree.c) and a skip list (kvs_skiptable.c), each with one global instance. They
-- allocate by `kvs_malloc`, which is a pool of chunks (kv_mempool.c) in front of libc; a second pool
-- with a bitmap is in kv_mempool_slab.c. `server_reader` (ntyco.c) cuts a connection's bytes into
-- frames and hands each to `kvs_tcp_protocol` (kvstore.c), which runs one command on an engine and
-- builds the response. kv_RDB.c writes the engines to a file and loads them.
--
-- The files.
--   Prelude: shared names. Native numbers with Boolean tests, lists, C strings and pointers, `int`
--     results as ℤ, and `Run`, the outcome of C code: a value, undefined behaviour, or a deadlock.
--   Array: kvs_array.c. `KvsArray` is `kvs_array_t`; each operation keeps its C name and takes the
--     outcomes of its allocations as Booleans. Array.View is the map that a table stands for.
--   Hash: kvs_hash.c. `KvsHash` is `hashtable_t`, with chains as lists; Hash.Index is `_hash`,
--     Hash.Calls the map that the table implements, Hash.Foreign the keys that it cannot place.
--   Pool: kv_mempool.c with `kvs_malloc` and `kvs_free` of kvstore.c, on a memory of words, with sizes
--     that wrap as `size_t` does.
--   Slab: kv_mempool_slab.c.
--   Rbtree: kvs_rbtree.c. The nodes are records at addresses with parent pointers. Shape says which tree
--     they stand for at a place in it, Rotate and Turn what a rotation does to that, Insert and Delete are
--     the algorithms, Calls the functions `kvs_rbtree_...`. Where the code has a branch and its mirror
--     image, the model has one definition for a side. Entries is the map that the tree stands for.
--   Skip: kvs_skiptable.c. The nodes are records at addresses with arrays of forward pointers. Towers is
--     the list of towers that they stand for, Calls the functions `kvs_skiptable_...`, Search, Splice and
--     Unlink what the loops do, Order the sorted entries. A score is any type with the comparisons of
--     `double`, whose laws are hypotheses.
--   Engine: the four globals as one state, and the interfaces of the tree and the skip list.
--   Wire: the header of kvstore.c, `parse_tcp_header` and `build_tcp_response`.
--   Protocol: `kvs_tcp_protocol`, with the payload in Protocol.Request and the refusals in
--     Protocol.Refused. Protocol.Trees gives it the tree of Rbtree, and Protocol.Zsets the list of
--     Skip, with the addresses of the allocations as a parameter.
--   Reader: `server_reader`, with the NUL that the protocol writes into the reader's buffer.
--   Rdb: kv_RDB.c. Crc is the checksum, Format the byte layout, Stream the part of stdio in use,
--     Config the settings and kvs.conf, Save `kvs_rdb_save`, Load `kvs_rdb_load` and the verification, Backup
--     `rdb_restore_from_backup`, Init the start, `kvs_rdb_init`.
--   Tests: the components on concrete inputs.
--
-- Bounds and fuel. Words of the wire and of the file are wrapped at 32 bits, lengths of records at 16.
-- `drain` takes as fuel the length of the buffer and one more, since every round removes a header of 24
-- bytes at least; `load_records` the length of the file's rest, since every round takes a byte at
-- least, and so for `copy_blocks`. The loops of the tree have fuel for its height, which is at most
-- twice the logarithm of its nodes; those of the skip list for the number of its nodes. The other
-- loops are structural.
--
-- Not modelled: the tree inside kv_RDB.c, where it is a parameter; sockets, coroutines and the event
-- loops of reactor.c and proactor.c; the copies that kv_RDB.c makes of older files and its thread for
-- saving; the messages printed; the arithmetic of floating-point numbers, whose comparisons are a
-- parameter. Threads do not interleave: a deadlock is a mutex that its holder waits for.
pub mod Prelude
pub mod Array
pub mod Hash
pub mod Wire
pub mod Pool
pub mod Slab
pub mod Rbtree
pub mod Skip
pub mod Engine
pub mod Rdb
pub mod Protocol
pub mod Reader
pub mod Tests
