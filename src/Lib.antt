-- ===== src/Lib.antt =====
-- HAMMER for Linux: the on-disk B-Tree, the allocation of big-blocks and the UNDO FIFO.
--
-- HAMMER keeps all records of a file system in one B-Tree on the disk, with keys that carry the
-- transactions of their creation and deletion, so that a search can look at the past. The B-Tree's
-- nodes, the records' data and the freemap itself lie in big-blocks of 8MB, which the freemap
-- accounts for in two layers; a big-block that is freed is held back by a reservation until the
-- flushes that may still need it are over. Changes of meta-data first lay down the old contents in the
-- UNDO FIFO, from which a crash is recovered.
--
-- The code that is modelled stands in dfly/vfs/hammer, from which the files of the same name in the
-- repository's root include it, and in hammer.h. The root has a hammer_subs.c
-- of its own: locks are those of dfly/vfs/hammer/hammer_subs.c, names and types those of the root.
--   Btree/Elm, Btree/Cmp        the elements, `hammer_btree_cmp` and `hammer_btree_chkts`
--                               (hammer_btree.h, hammer_btree.c)
--   Btree/Separator             `hammer_make_separator` (hammer_btree.c)
--   Btree/Search                `hammer_btree_search_node`, and the loops of `btree_search` inside one
--                               node (hammer_btree.c)
--   Btree/Leaf                  `hammer_btree_insert` and `hammer_btree_delete`, with the tracking of
--                               cursors (hammer_btree.c, hammer_cursor.c)
--   Btree/Tree                  nodes by their offsets, and a cursor over them (hammer_cursor.h)
--   Btree/Split                 `btree_split_leaf`, `btree_split_internal` and `btree_set_parent`
--                               (hammer_btree.c), `hammer_cursor_split_node` (hammer_cursor.c)
--   Btree/Walk                  `hammer_cursor_up`, `hammer_cursor_down` and
--                               `hammer_btree_get_parent` (hammer_cursor.c, hammer_btree.c)
--   Btree/Shape                 well formed trees, and the set of elements of a tree
--   Btree/Lookup                `btree_search` as a whole (hammer_btree.c)
--   Disk                        zones, volumes, offsets of the layers' entries (hammer_disk.h)
--   Undo/History, Undo/Fifo     the history of undos; the FIFO's space and records (hammer_undo.c)
--   Blockmap/Reserve            reservations of big-blocks (hammer_blockmap.c)
--   Blockmap/Layers             `hammer_blockmap_free` and `hammer_blockmap_finalize`
--                               (hammer_blockmap.c)
--   Blockmap/Query              `hammer_blockmap_getfree` and `hammer_blockmap_lookup`
--                               (hammer_blockmap.c)
--   Blockmap/Alloc              `hammer_blockmap_alloc`, `hammer_blockmap_reserve` and
--                               `hammer_checkspace` (hammer_blockmap.c)
--   Lock                        locks, and all orders of calls on one lock (hammer_subs.c)
--   Prune                       the decision to prune a record (hammer_prune.c, hammer_ioctl.h)
--   Transaction                 the allocation of transaction ids (hammer_transaction.c)
--   Transaction/Objids          the cache of object ids (hammer_transaction.c)
--   Recover                     the test of a record's tail, and the checks of `hammer_recover_undo`
--                               before a record is applied (hammer_recover.c)
--   Names                       name keys of directories (hammer_subs.c)
--   Types                       object types and times (hammer_subs.c)
--   Base                        arrays, Boolean tests, bits, and how an operation ends
--   Tests                       concrete runs
--
-- The state of a component is a record, and each operation a function from the state to the next one;
-- an operation that can fail has an `Outcome`: a result, an error number or a panic, which a failed
-- KKASSERT is too. A machine word is a natural number with its wrap-around written out. Trees and
-- queues of the kernel are lists.
--
-- A tree is a function from the offsets of nodes to the nodes, and its abstract view the set of the
-- elements in its leaves, which a lookup searches.
--
-- Parameters stand for what the models do not have: the error numbers of `hammer_bread`,
-- `hammer_cursor_upgrade` and `hammer_btree_lock_children`, the nodes that the allocator gives, and
-- `crc32`.
--
-- The loops of `btree_search` up and down the tree run on a number of levels, for which the height of
-- the tree is enough. Three more loops run on fuel: that of `hammer_btree_search_node` on one unit more
-- than there are elements, since each round takes one off the range at least; the FIFO's on two, since
-- one padding at most comes before the record; and the search for room in a zone on the bytes of two
-- passes over it, since each round moves the offset on and a second wrap ends the loop. That these are
-- enough is part of the theorems about them.
--
-- Not modelled are iterations over the tree, the removal of nodes, I/O errors of nodes, and all that
-- rests on kernel threads, block devices, buffers and vnodes: flusher, inodes, in-memory records,
-- mirroring, reblocking, ioctls.
pub mod Base
pub mod Btree
pub mod Disk
pub mod Blockmap
pub mod Undo
pub mod Lock
pub mod Prune
pub mod Transaction
pub mod Recover
pub mod Names
pub mod Types
mod Tests
