-- ===== src/Lib.antt =====
-- A verification library for libjeffpc, a C library of small services: buffers of bytes, text
-- codings, values and name-value lists, their serialised forms, trees, threads and sockets. The
-- parts that are modelled here are the text codings, the buffer, CBOR that is packed to it and
-- read from it, values, name-value lists, S-expressions, the trees, the task queue, and the
-- checks that locks go through.
--
-- - Base and its children hold what all share: tests on native numbers, lists over them, the bit
--   operations as arithmetic (Base/Bits), big endian numbers (Base/Integers, Base/Endian), and
--   the results of C functions (Base/Outcome): a value, a negated errno, an abort by a failed
--   VERIFY or panic, or an access out of bounds.
-- - Urldecode models urldecode.c: `struct state`, `append_char`, `append_esc` and the loop of
--   `urldecode`. Urldecode/Spec says what percent-decoding means and Urldecode/Decodes relates
--   the two. `urldecode_str` is in Qstring.
-- - Unicode models unicode.c and include/jeffpc/unicode.h: `utf8_to_utf32`, `utf32_to_utf8`,
--   `utf8_is_valid_str` and `utf32_is_valid`. Unicode/Spec is UTF-8 as arithmetic.
-- - Base64 models base64.c and include/jeffpc/base64.h: the four tables (Base64/Tables),
--   `__b64_encode` and `__b64_decode` for any tables, and the four functions that are exported.
--   Base64/Spec is the coding by whole groups, with no index.
-- - Buffer models buffer.c, buffer_heap.c, buffer_static.c, buffer_sink.c and the inline
--   functions of include/jeffpc/buffer.h that read and write. The table of operations of a buffer
--   is named by its kind. The C library's malloc and realloc are a record of functions with the
--   laws that they document (Buffer/Memory). Buffers over a FILE are left out, since all they do
--   is I/O.
-- - Cbor models fmt_cbor.c and include/jeffpc/cbor.h: the items of numbers, texts, truth values,
--   null and the starts and ends of arrays and maps, and, in Cbor/Values, whole values. Cbor/Spec
--   is the head of an item, Cbor/Reading how a buffer is read, Cbor/Pack what packing leaves,
--   also where it fails, and Cbor/Unpack, Cbor/Text, Cbor/Floats and Cbor/RoundTrip what is read
--   back. Of whole values, Cbor/Values/Encode is their items and their packing, and
--   Cbor/Values/Start, Cbor/Values/Decode, Cbor/Values/Step, Cbor/Values/Unpack and
--   Cbor/Values/Whole are how they are read back. An array of pointers is its number of places.
-- - Val models include/jeffpc/val.h with val.c, val_array.c and str.c: a value is a tree of the
--   constructors of `enum val_type` and of NULL. Values but name-value lists never change, so a
--   pointer to one is the value; a name-value list in a value stands for its pairs at the time.
--   Val/Compare is the order of texts.
-- - Nvl models nvl.c, val_nvl.c and include/jeffpc/nvl.h: a name-value list is a tree of Rbtree
--   whose items are names with values, compared by strcmp, so its operations are those of Rbtree
--   with their results. What the allocator has for a new pair is a parameter of each setting.
--   Nvl/Names is what a name stands for in the ordered items, Nvl/Lookup what a lookup returns,
--   Nvl/Change and Nvl/Merge what a change does to all lookups, also where the memory runs out,
--   and Nvl/Last a pair that is put behind all others. `nvl_unpack` and the conversions of
--   nvl_convert.c are left out.
-- - Qstring models qstring.c, with urldecode_str of urldecode.c, on Urldecode and Nvl. The bytes
--   before a separator are the name or the value so far, and an array on the stack starts as any
--   bytes.
-- - Sexpr models sexpr.c and include/jeffpc/sexpr.h: lists of cons cells as values, with NULL for
--   an empty list too. Sexpr/Equal is what `sexpr_equal` decides, Sexpr/Lists the way from an
--   array to a list and back; `sexpr_list_to_val_array` takes the C library's allocator.
--   Sexpr/Compact models sexpr_compact.c, with what a result shares with its argument, and
--   Sexpr/Eval sexpr_eval.c, where the functions of an environment are the caller's and each call
--   and each round of a loop takes one unit of fuel; Sexpr/Eval/Reduce is what sums and truth
--   values come to. Parsing and printing are left out, and so is `sexpr_args_to_list`, whose
--   arguments are variadic.
-- - Tree models tree.c, tree_impl.h, bst.c and include/jeffpc/tree_private.h. A pointer to a node
--   is the subtree below it with the path of its parents, so a node's parent pointer is the head
--   of the path, and a cookie is the path to a place where no node is. Tree/Walk is the order of
--   the items, Tree/Steps the steps along it, Tree/Search and Tree/Node what a search finds,
--   Tree/Remove what a removal takes out. `tree_destroy_nodes` is left out.
-- - Rbtree models rbtree.c on these trees. The loops of `rb_insert_here` and `rb_remove` go up
--   the path, which is their argument. Rbtree/Shape is the invariant, of a whole tree and of the
--   surroundings of a place in one; Rbtree/FixInsert, Rbtree/Insert, Rbtree/Settle,
--   Rbtree/FixRemove and Rbtree/Remove show that it is kept, Rbtree/Replace what an item changed
--   in its place leaves, and Rbtree/Height what it bounds. A read through a NULL pointer is a
--   fault.
-- - Synch models the checks of synch.c that lock tracking adds, under the calls mxlock, mxunlock,
--   rwlock, rwunlock and condwait: `check_magic`, the stack of held locks, and the graph of lock
--   classes. Synch/Ways and Synch/Graph are the ways through the graph and what its search finds,
--   Synch/Order and Synch/Lock that the checks keep an order of the classes, Synch/Threads what
--   threads may do, Synch/Deadlock what follows, and Synch/Unlock the release. The search
--   recurses on the depth of the call stack, which is a parameter: any depth above the rank of a
--   class is enough. The calls of pthreads, which come behind the checks, and the messages are
--   left out.
-- - Taskq models taskq.c: a worker's loop cut at the places where it gives up the lock, the
--   dispatch, the wait and the destruction up to the joins. Taskq/Steps is how the threads
--   interleave, with wakeups that nobody has signalled, Taskq/Valid and Taskq/Invariant what
--   holds at all times, Taskq/Progress and Taskq/Drain that the workers get through the queue.
--   Items may be dispatched at any time, also while the queue shuts down. What was dispatched,
--   started and called so far, and what was dispatched during the shutdown, are kept as sequences
--   beside the queue. The condition variables are those of POSIX, and the memory for the threads
--   is given. An item is what it calls, and the list of the queue is a sequence.
--
-- The slab allocator is taken to have memory for each value, and in Cbor/Values, Sexpr/Compact
-- and Qstring for each pair and the copy of its name. In Sexpr/Compact it has memory for the
-- arrays too.
--
-- A byte and a C `char` are the number of the byte, and a block of memory is the list of its
-- bytes, which is read and written by index. A `size_t` is a number below 2 ^ 64 whose sums wrap.
-- A function that fails returns no state: a buffer is then unchanged, and what else the output
-- memory holds is not modelled. The functions that pack CBOR return the buffer also where they
-- fail, since it may hold a part of an item. Fuel is taken by the loop of `utf8_is_valid_str`,
-- which gets as many rounds as there are bytes, and whose result shows when they are used up, by
-- the search of the lock classes, which is as deep as the call stack, and by the unpacking of
-- whole values, of which each call and each round of a loop takes one unit: four for each byte
-- are enough for the items that packing makes. The evaluation of S-expressions takes fuel in the
-- same way.
--
-- Not modelled are the calls of pthreads, the sockets and servers, the slab allocator, the file
-- cache, random numbers and I/O, all of which are calls of the system, and for now the JSON form
-- of values, the parsing and printing of S-expressions, and UUIDs.
pub mod Base
pub mod Urldecode
pub mod Unicode
pub mod Base64
pub mod Buffer
pub mod Val
pub mod Cbor
pub mod Tree
pub mod Rbtree
pub mod Nvl
pub mod Qstring
pub mod Sexpr
pub mod Taskq
pub mod Synch
