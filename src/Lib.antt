-- ===== src/Lib.antt =====
-- ChenDB: a small relational database engine in Python (engine/). This library models the parts of
-- the engine on which durability, isolation and concurrency rest.
--
-- Prelude: shared tests, lists, dictionaries, sets, little-endian bytes, slices and results. A Python
--   dictionary is a list of pairs in insertion order (Prelude.Dict), a set is a list read through its
--   membership test (Prelude.Sets), bytes are lists of numbers, and what a method raises is the error
--   of a Result.
-- Wal: the write-ahead log (engine/wal).
--   Wal.Record is record.py: LogRecord with to_bytes and decode_record; zlib.crc32 is the parameter
--     crc32, of which only the range of its results is used.
--   Wal.Log is log.py: the class WriteAheadLog; a method returns the new log beside its result. The
--     file is its bytes. read_all scans on fuel, one more than the bytes of the file, which is enough
--     since each record takes at least its header. Wal.Log.Refines relates a log to two lists of
--     records, those that have reached the file and those that are staged.
--   Wal.Recovery is recovery.py: _analyse, _redo, _undo and recover. The pages are a map, on
--     which the two callbacks act as Pager._page_lsn_on_disk and Pager._apply_recovered_page of
--     engine/storage/pager.py do: an image of another length than a page's is refused, and a write past
--     the end of the file makes the pages between blank. Reading the LSN of an image is the parameter
--     lsn_of.
-- Concurrency: locks and snapshots (engine/concurrency).
--   Concurrency.Locks is locks.py. A method holds the manager's one lock from its start to its end or
--     to its wait, so acquire is start_acquire up to its first wait and a resume for each wake-up, and
--     Concurrency.Locks.History takes any sequence of such steps. The depth-first search runs on
--     fuel, one more than the number of waiting transactions, which is shown to be enough.
--     Concurrency.Locks.Waits reads off the lock table who waits for whom, which the graph is held to.
--   Concurrency.Snapshot is snapshot.py: Snapshot.take, Snapshot.sees, visible and
--     VisibilityStats.note.
-- Transaction: engine/transaction.
--   Transaction.Undo is undo.py: the before-images of a transaction. Transaction.Undo.Rollback puts
--     it between the writes of a transaction and their rollback.
--   Transaction.Manager is manager.py: sessions, running transactions, snapshots and the write hook.
--     Transaction objects are shared by two dictionaries, so they are kept in a store and referred to
--     by id. The vacuum test and the checkpoint stamp are from engine/database.py.
-- Index: engine/index. Index.Key is key.py: encode_key and decode_key; a float is its 64 bits, a text its
--   UTF-8 bytes, and the conversion of an integer to a float, which may raise, and the validity of UTF-8
--   are parameters.
-- Serialization: engine/serialization. Serialization.Record is the codecs of types.py, and encode_record and
--   decode_record of record.py, over the values of Index.Key. A codec's validation and its encoding are
--   one function. Beside the engine's errors stand struct.error, for a text whose length does not fit its
--   prefix, and OverflowError, where Python can not convert an integer to a float.
--   Serialization.Version is the header of a row version: add_tuple_header, read_tuple_header,
--   strip_tuple_header and set_xmax. Serialization.Schema is schema.py: what a column and a schema are
--   tested for, and index_of, over Python's casefold as a parameter.
-- Storage: engine/storage.
--   Storage.Buffer is buffer.py: the pool of frames. The two callables that it is given are the
--     operations of a record, Backing, over a state of their own; a read may raise, and a write is
--     taken not to. Storage.Buffer.Admit relates a pool and what backs it to a map of pages.
--   Storage.Page is page.py: the slotted page. A page is its bytes, and each field is read and written in
--     them as struct does, with struct.error as an error. Storage.Page.Sound says what a well-formed page
--     is, and what is in a slot; zlib.crc32 is a parameter of Storage.Page.Image. Storage.Page.Compact is
--     compaction, Storage.Page.Ordered the operations of index pages.
-- Tests: runs of the definitions at concrete inputs.
--
-- The parts meet as in engine/database.py: a transaction writes pages through before_write, which
-- captures the page for the undo log and names the before-image that append_update logs; a commit
-- logs and flushes its record and releases the locks; a rollback rewinds the undo log; a crash leaves
-- the log and pages at different points, which recover brings together.
--
-- Numbers have no upper bound except where the source packs them: to_bytes fails where a field does
-- not fit its width, and the theorems that need success ask that the record fits.
--
-- Not modelled: heaps, the pager beyond recovery's callbacks, B+ trees, the
-- catalog, SQL parsing, planning and execution, the server and the visualizer; within the modelled
-- parts, clocks, trace events, messages and read-only views.
pub mod Prelude
pub mod Wal
pub mod Concurrency
pub mod Transaction
pub mod Index
pub mod Serialization
pub mod Storage
mod Tests
