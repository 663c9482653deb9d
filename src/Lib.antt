-- ===== src/Lib.antt =====
-- A model of the run-time library of RimStone (rim.h and the .c files beside it), with theorems
-- on what its components promise. A program of the language becomes C code that calls this
-- library: `new-tree`, `write-array`, `text-utf` and the other statements are each a call of one
-- of the functions modelled here, so that a component's contract is its functions' results.
--
-- Parts:
--   Base: numbers, lists, Boolean tests, signed numbers, and `Result` for the functions that may
--   end in rim_report_error or hand an error text back.
--   Tree: tree.c, the AVL tree. Tree.antt has its nodes, the balance and the insertion,
--   Tree/Operations.antt the deletion, the searches, minimum, maximum and purge, and the
--   functions ending in _f that the generated code calls; Tree/Compare.antt has rim_tree_compare.
--   A function that reaches its node by the parent and a direction takes the node here, and hands
--   back what it leaves in that place and whether it recomputed the parent's height. Keys enter by
--   the record KeyOrder of a comparison and its laws (Tree/Key.antt), which texts without a NUL
--   fill. Tree/Spec has the abstract tree, a sorted list of keys and data, to which Tree/Insert,
--   Tree/Delete and Tree/Search relate the operations.
--   Array: arr.c and the assignment that v1.c generates behind a call of it. The four element
--   types differ in the default and in the variable for the old value, which for doubles is one for
--   whole numbers: the type, its default and the conversion of the old value are parameters.
--   Utf: utf.c, the codes of UTF-8 and of the escapes of JSON and text, with the macros of rim.h
--   that write hexadecimal digits (Utf/Digits.antt).
--   Hash: hash.c, chained buckets over entries with addresses; a key's bucket and the two ways in
--   which the code compares keys are in Hash/Key.antt, the changes of one bucket in
--   Hash/Links.antt. Hash/Table.antt has the well-formed table and its view, the list of entries
--   under each key, to which the other files relate the operations.
--   Message: msg.c as the server compiles it, without RIM_MSG_CLI. A message is its text with the
--   place reached in it. Message/Fields.antt has the pieces of an item, Message/Head.antt and
--   Message/Item.antt what parsing one takes, Message/Writing.antt and Message/Reads.antt sequences
--   of writes and of reads.
--   Fifo: of rimrtc.c the sequential lists, items at addresses that a memory maps to them.
--   Fifo/Chain.antt follows the links, Fifo/Queue.antt has the view of a list as the elements read
--   and those still to be read, to which Fifo/Retrieve.antt and Fifo/Delete.antt relate the operations.
--   Linked: of rimrtc.c the doubly linked lists, with the code that v1.c generates for position-list.
--   Linked/Zipper.antt has the view of a list as the elements in front of the current one and those
--   from it on, to which the other files relate the operations.
--   Number: of rimrtc.c rim_num2str, the text of a number in a base, related in Number/Digits.antt to
--   a reading of it.
--   Trim: of rimrtc.c rim_trim and rim_trim_ptr.
--   Encoding: of rimrt.c rim_bin2hex, rim_hex2bin and rim_decode, of rimrtc.c
--   rim_encode_base (Encoding/Codec.antt; rim_decode for web text is in Encoding/Web.antt). A string
--   that is encoded is its bytes with one null byte behind them, and reading on is an error value.
--   Memory: rimmem.c, the table of memory blocks. Memory.antt has the table, the two lists that go
--   through it, rim_malloc and rim_free, Memory/Counting.antt the references, Memory/Growing.antt
--   rim_realloc and the copies of strings, Memory/Ending.antt the end of a request. A well-formed
--   table is in Memory/Valid.antt: a step takes an entry out of a list (Memory/Open.antt,
--   Memory/Take.antt), changes it, and puts it into another one (Memory/Close.antt). Memory/Held.antt
--   has the view of the code that holds a block, to which the index of its entry does not matter.
--   What libc's malloc and realloc return is an argument of a step; `grows` tells whether realloc
--   finds memory for a larger table.
--
-- Numbers: the natural numbers stand for the 64-bit and 32-bit numbers of the source, and `ℤ`
-- where a number may be below 0. An array's limit is taken to be at most 2 ^ 63 - 65537 and a
-- tree's count below 2 ^ 63, so that no sum passes 2 ^ 63. The 7 bits that hold a tree's height
-- are not cut to: an AVL tree of height 127 has more nodes than a memory. The conversion from 8
-- hexadecimal digits to a signed 32-bit number is written out (`to_num32`).
--
-- Fuel: `purge` of a tree runs its loop on as many rounds as it is given; one more than the
-- tree's count is enough. `copy_hash`, the loop of rim_resize_hash, has one round more than the
-- table has entries, the loop of rim_fifo_delete one more than the list has elements, and that of
-- rim_read_msg over comments one more than the text has bytes. rim_done needs one more than there
-- are ordinary blocks, rim_list_purge one more than the list has elements. The digits of
-- rim_num2str are bounded by their array. Every other loop is a recursion on its data.
--
-- Not modelled: the calls of rimmem.c by which tree.c, arr.c, hash.c and the lists of rimrtc.c
-- count references on keys and data, the bytes of the blocks and a sum of a block's size that passes
-- 2 ^ 64, the linked list of a sorted tree, what debug builds check and print, failing
-- allocations outside Memory (the library ends the process), and the components of the manifest's
-- list that have no file here, which are input and output, bindings of other libraries, or the
-- preprocessor.
pub mod Array
pub mod Base
pub mod Encoding
pub mod Fifo
pub mod Hash
pub mod Linked
pub mod Memory
pub mod Message
pub mod Number
pub mod Tree
pub mod Trim
pub mod Utf
