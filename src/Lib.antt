-- ===== src/Lib.antt =====
-- libcorkipset stores sets of IP addresses and maps from IP addresses to integers as reduced
-- ordered binary decision diagrams. This library models it with the order of calls that the C code
-- has.
--
-- The program's parts, from the bottom up:
--   * include/ipset/bdd/nodes.h, node ids: a 32-bit word whose lowest bit tells a terminal from a
--     nonterminal. NodeId models the macros, with their shifts modulo 2^32.
--   * include/ipset/bits.h, bit arrays: Bits.
--   * src/libipset/bdd/basics.c, the node cache: Node is `struct ipset_node` with its hash and
--     equality, Cache is `struct ipset_node_cache` with `alloc_node`, `incref`, `decref` and
--     `nonterminal`. The memory is a list of chunks of 64 nodes, the free list is linked through
--     the reference counts of dead nodes, and the table of nodes is libcork's hash table, whose
--     operations are the fields of the interface HashTable. Every operation is a step on the whole
--     cache, in the monad `M`; `none` is a read outside of the chunks or fuel that ran out.
--   * src/libipset/bdd/basics.c, the operators: Bdd has `evaluate`, `nodes_equal`, and `insert`
--     with its recursion `apply_ite`, which C writes in one function and the model in one function
--     per case.
--   * src/libipset/set and src/libipset/map: Address instantiates the templates for IPv4 and IPv6,
--     Set and Map are the allocation and inspection files and the templates. Each writer inserts
--     into the diagram, gives up the old diagram and keeps the new one: `replace`.
--   * src/libipset/bdd/assignments.c, expanded.c, bdd-iterator.c and reachable.c: Assignment,
--     Expanded, Iterator and Reachable. src/libipset/set/iterator.c: Networks, whose functions take
--     those that C calls back as arguments.
--   * src/libipset/bdd/write.c and read.c: Save is `ipset_node_cache_save` for version 1 of the
--     file format, Load is `ipset_node_cache_load`. Both are steps on a state with the stream in
--     it, in a monad whose results keep C's errors apart from `stuck`, which is no C value.
--     SerializedId has the ids on disk, BigEndian the bytes of integers, and Pointers the hash
--     tables with pointers as keys.
--   * src/libipset/set/storage.c and map/storage.c: Stream has the consumer for a file, Storage the
--     save and load functions of sets and maps.
--   * The GraphViz part of src/libipset/bdd/write.c: Dot is `ipset_node_cache_save_dot`, on the
--     traversal of Save.
--   * src/ipsetbuild/ipsetbuild.c: Build is what a line of the input says, Build/Lines the loop over
--     the lines of a file, Build/Program the loop over the files and the one over the removals,
--     Build/Main the options and the output.
--   * src/ipsetcat/ipsetcat.c and src/ipsetdot/ipsetdot.c: Cat and Draw. Tool has what the programs
--     share.
--
-- The specification. Tree is a diagram without ids, sharing or counts, and `eval` is the function
-- that it denotes; Tree/Canonical is about reduced ordered trees with the same function.
-- Cache/Graph is the graph of the nodes in use with the references that callers and nodes hold, and
-- Cache/Graph/Repr relates ids to trees. Cache/Invariant says when a cache, a graph and the
-- references belong together: every count is the number of references, the table is exact, no node
-- is redundant, and the free list is a chain of dead nodes. Cache/Counting, Cache/Alloc,
-- Cache/Create, Cache/Nonterminal and Cache/Release are about this invariant and the operations,
-- Bdd/Branch, Bdd/Insert and Bdd/Replace about insertion, and Set/Laws and Map/Laws about
-- addresses. Save/Progress says how far a save has come, and Save/Whole what a whole file is;
-- Load/Loop and Load/Whole are about reading it, Load/Listed and Load/Small relate the two, and
-- Load/Frame is about files that are cut short. Save/Mirror is about a save whose consumer may
-- refuse a chunk, beside one whose consumer takes them all. A loaded cache is well formed but for
-- its counts, which miss the references of shared nodes: Load/Cache has the weaker predicate that
-- it meets.
--
-- Iterator/Walk is about the paths that a client of the diagram iterator sees. Expanded/Full has the
-- full assignments of a partial one without a buffer, and Expanded/Expand is about what a client of
-- the expansion sees; Bits/Laws is about the bits of an array of bytes. Networks/Listing is the list
-- of the networks of a set, Networks/Showing has the states of the set iterator, Networks/Whole is
-- about what a client of it sees, and Networks/Exact about the addresses in that.
--
-- Build/Document is the format of the usage text of ipsetbuild and the set that a document describes,
-- without a word on how it is read. Its lines end with a newline and fit in the buffer of `fgets`.
-- Build/Document/Lines, Says, Meaning and Whole are about what the program reads of a document. Build/Wanted
-- is the set that the lines ask for once they are read, Build/Entries is about how they are entered,
-- Build/Reads about the files, Build/Correct about the set that is built and Build/Complete about the
-- file that is written. Every line is allowed the 260 nodes of one insertion.
--
-- Bounds. The recursions of C run on fuel. The variables are 0 to 128, so a path has at most 129
-- nonterminals, fewer than the depth 130 that Set and Map use. An insertion takes at most 259 new
-- nodes; the hypothesis HasRoom says that 260 indices below 2^31 are left, since an index is
-- shifted into a 32-bit id. Counts then cannot overflow. A walk over the nodes visits each of them
-- once and its queue holds two more for each: the rounds of `reachable_count` are more than twice
-- the indices. The set iterator needs as much fuel as the diagram has paths, since it goes past
-- those without the desired value in one call.
--
-- Parameters. HashTable states what the code relies on of libcork's hash table, and NodeTable
-- carries libcork's hash of a word. Examples/Assoc fills the interface with an association list.
-- Parsing is what ipsetbuild calls of libcork and of the locale, Printing what ipsetcat calls, and
-- Files what the system gives for the name of a file. The options come as `getopt_long` gives them.
-- Consumer is libcork's stream consumer, with Accepts for one that takes every chunk; Stdio has
-- `fwrite` and `ferror`, Printf the printing of numbers, and a file that is read is a list of bytes
-- that may end in an error.
--
-- Not modelled: the release of memory (`free`, `ipset_node_cache_free`), the debugging output, the
-- texts of the errors of libcork and errno, `ipset_init_library`, which returns 0, and src/examples
-- and src/tests, which are clients.
mod Prelude
pub mod Tree
pub mod NodeId
pub mod HashTable
pub mod Node
pub mod Cache
pub mod Bdd
pub mod Bits
pub mod Address
pub mod Set
pub mod Map
pub mod Assignment
pub mod Expanded
pub mod Iterator
pub mod Reachable
pub mod Networks
pub mod SerializedId
pub mod BigEndian
pub mod Pointers
pub mod Stream
pub mod Save
pub mod Load
pub mod Storage
pub mod Dot
pub mod Tool
pub mod Build
pub mod Cat
pub mod Draw
mod Examples
