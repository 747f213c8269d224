-- ===== src/Lib.antt =====
-- A verification of quorin, a feature store that keeps feature rows in shared memory.
--
-- The program: a schema (quorin/schema.py) is compiled to offset tables; a layout
-- (quorin/layout.py) is computed from a schema, a capacity and the longest id; a segment
-- is a block of shared memory with this layout, in which `insert` and `lookup` keep an
-- open-addressing table from entity ids to feature rows. The registry (quorin/shm.py) counts in
-- Redis which process holds which segment, and the watchdog releases what dead processes held. A
-- producer (quorin/wal.py) packs the values of a row into a message, and the consumer
-- (quorin/wal_consumer.py) unpacks it and inserts the row; a hydration fills a new segment from the
-- offline store, and an upgrade copies a segment to a new schema and moves the pointer to it.
--
-- The files:
--  Base: the names of the libraries that all files use, tests and lists on native numbers,
--    masks as remainders.
--  Result: exceptions as values, with the steps of a function as a do block.
--  Align: `_align_up` and `_next_pow2` of quorin/schema.py and quorin/layout.py.
--  Schema: DType, FeatureField, FeatureSchema and their validation; Schema/Name: the pattern
--    of class names, and `_safe_class_name` of quorin/shm.py; Schema/Offsets and Schema/Table:
--    `_field_byte_offsets`, `compute_assembly_table`, `compile_schema`,
--    `compute_row_offset_table`, `row_size` and `total_segment_size`.
--  Memory: the bytes of a segment as a function of the address, and the struct codes.
--  Layout: `SegmentLayout`, `compute_layout`, `compute_layout_from_segment`, the cursors, the
--    pool header and `initialize_segment_regions` of quorin/layout.py.
--  Segment: `lookup`, `insert`, `_insert_into_empty_slot` and `iterate_occupied` of
--    quorin/layout.py. An insert is the list of its writes, in program order, so that a crash
--    is a prefix of the list.
--  Header: the header that `SegmentRegistry.create` writes and `_verify_header` reads
--    (quorin/shm.py), with the bytes of a whole new segment.
--  LookupKernel: `_lookup_core` and `lookup_jit` of quorin/_internal/lookup_kernel.py, and their
--    parity with `lookup`, on bytes of which the mapping holds a part (Mapped).
--  InsertKernel: `_insert_many_core`, `_prepare_insert_columns` and `insert_many` of
--    quorin/_internal/insert_kernel.py. Row sets a round of the kernel beside an insert.
--  Assembly: `_assemble_core` and `assemble` of quorin/assembly.py: the vector of a row;
--    Assembly/Batch: `assemble_batch` with its serial and its parallel kernel.
--  Registry: the Redis keys that count who holds which segment: the transactions of `create`,
--    `open_current` and `close` (quorin/shm.py), the scripts for dead processes and for the
--    clean-up queue (quorin/_internal/watchdog_lua.py) and the flip of an upgrade
--    (quorin/_internal/evolution_lua.py), each one atomic step. Steps and Counting are runs of
--    such steps in any order; in Steps, the read of the pointer by `open_current` is a step of its
--    own before its transaction, and Late is a close between the two.
--  Pool: the buffer pools of quorin/pool.py; who holds which buffer, and what is in it.
--  Watchdog: `WatchdogState.run_one_tick` of quorin/watchdog.py over the registry.
--  WalProducer: `write` and `write_sync` of quorin/wal.py, with `field_order_for` of
--    quorin/_internal/pydantic_factory.py.
--  RowPack: `_build_plan` and `pack_row_from_list` of quorin/_internal/row_pack.py: the values that a
--    producer packed, in the order of the name hashes, become a row.
--  WalConsumer: `_apply`, `_process_batch` and `_flush_and_ack` of quorin/wal_consumer.py, with
--    the insert of Segment; Reading has `_drain_pel`, `_run_one_iter` and what a pause does,
--    Reopening the segments after it; Interleaving runs the read loop, with the flush of its pause
--    path, and the flush loop in any order, each message, the SETs of a batch, the await of the writer's
--    flush and the XACK a step of its own; Overlap is a flush of each loop at a time.
--  Evolution: `can_upgrade` of quorin/evolution.py and its table of widenings.
--  Upgrade: `upgrade_schema` of quorin/evolution.py as a sequence of stages, each of which may raise,
--    with steps of other processes before it, over the keys of Registry, the lock and the pause.
--  Hydration: `hydrate` and `_force_drop_orphan` of quorin/hydration.py, over the keys of Registry.
--  GcManager: the functions of quorin/_internal/gc_manager.py, with the threads and events of the
--    operating system; Steps runs them in any order.
--  The files named Tests run the theorems on a schema with two fields and two entities.
--
-- The state and its invariant: a segment is its bytes and its layout. `IsSegment`
-- (Segment/Slots) says that each slot in use has its string inside the pool, a row of its own
-- that was handed out, the hash of its id, and no empty slot before it on the way that the
-- probe takes; that no two slots hold one id; and that no more slots are in use than rows.
--
-- Parameters: the digest (hashlib's BLAKE2b) is a function `hash`, assumed to be below 2 ** 64
-- where it is stored. Numbers are natural numbers; integers of 4 and 8 bytes are their
-- little-endian bytes, so that a value that does not fit would be cut.
--
-- Of the watchdog, `int`, `str`, psutil and `posix_shm.unlink` are functions, and HGETALL's reply is
-- a list. Of the WAL consumer, a message comes decoded, and what the offline writer takes is a test.
-- The cast of an element to float32 is a function `cast`. The checksum of a compiled table is a
-- function `crc`, below 2 ** 32. Of the producer, msgpack, the validation of the values, XADD, EXISTS
-- and the clock are functions, and of the packing of a row the conversions of struct and numpy. Of
-- an upgrade and a hydration, which calls raise, and what other processes do to the registry
-- meanwhile, is given by a record (`Environment`, `Setting`); a stage of an upgrade that raises has had
-- no effect, and of a hydration `create` may have had its effect. The lock of an upgrade has no expiry,
-- and only the upgrade touches it. The memory has no end: an address outside the mapping reads a value.
-- An entity id is bytes, so that `iterate_occupied` does not show the UnicodeDecodeError.
--
-- Bounds: the probe runs for as many rounds as the source's `range(slot_capacity)`, and
-- `bit_length` for as many as its argument, which halves in each. The wait of `write_sync` has fuel
-- for one round more than its timeout has milliseconds, since a sleep takes a millisecond at least. The
-- drain has fuel for one round more than there are pending messages; its wait at the ceiling, which
-- only a stop ends, is a result of its own.
--
-- Not modelled: Redis and the operating system, the isinstance tests of the constructors,
-- metrics and logging.
pub mod Base
pub mod Result
pub mod Align
pub mod Schema
pub mod Memory
pub mod Layout
pub mod Segment
pub mod InsertKernel
pub mod LookupKernel
pub mod Assembly
pub mod Registry
pub mod Pool
pub mod Header
pub mod Watchdog
pub mod WalConsumer
pub mod Evolution
pub mod GcManager
pub mod Upgrade
pub mod WalProducer
pub mod RowPack
pub mod Hydration
