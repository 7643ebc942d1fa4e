-- ===== src/Lib.antt =====
-- CuckooGraph: a graph store in which the neighbours of a node lie in cuckoo hash tables.
--
-- The parts of the program and the files that model them:
-- * CuckooGraph/BobHash.h and CuckooGraph/Util.h, BOBHash64, hash64 and hash32 (`mmhash`): Hash, with
--   the table `prime` in Hash/Primes.
-- * CuckooGraph/Cuckoo.h, class Bucket: Bucket (the AVX2 branches) and Bucket/Scalar (the plain
--   loops); class Layer: Layer; class Cuckoo: Cuckoo; class CMSketch: Sketch.
-- * CuckooGraph/main.cpp, class mergehash1: MergeHash, with `expand` and `compress` in Resize; class
--   bSlot: Slot, with `merge` in Slot/Merge, `insert` in Slot/Grow, `compress` and `del` in
--   Slot/Shrink, `query_successor` and `GetNeighbors` in Slot/Neighbours; class bCuckoo: NodeTable and
--   NodeTable/Kicks, class bLayer: NodeTable/Layers, class bBucket: NodeTable/Row; class holemerge:
--   HoleMerge with the queries, `merge` and `compress` in HoleMerge/Merge, `insert` in HoleMerge/Grow,
--   `main_del`, `post_del` and `del` in HoleMerge/Shrink, and what these share in HoleMerge/Offer; the
--   function hole_Bfs: Bfs.
-- Prelude holds what the files share. Proofs stand in the child modules, named for what they prove,
-- and Tests holds runs on concrete keys.
--
-- State and operations. A bucket is a list of eight keys, 0 for a free slot; a layer is a list of
-- buckets, and a key belongs in the bucket of its hash. A cuckoo table has two layers. `insert` puts a
-- key into the first layer or the second one, and else kicks keys from one layer to the other; it
-- takes and returns the globals, which are the stream of the results of `rand()` and the variable
-- `mykick` with the key left over after 500 kicks. A chain has three links to tables and a blacklist of
-- the keys left over. It opens a table or doubles the smallest one when all are fuller than `rate`,
-- and halves a table that a deletion leaves emptier than `cthres`. A slot holds the neighbours of one
-- node: six keys in place of its pointers, or up to three cuckoo tables, the second and third of half
-- the width of the first; edges that its tables turn out go to the global list `sblacklist`. The slots
-- are themselves the keys of a cuckoo table of nodes, and the store has up to three such tables, which
-- `link[0]` to `link[state]` point to, and a blacklist of the slots that they turned out. A store stands
-- for a graph, which is a truth value for each pair of nodes (Slot/Stands and HoleMerge/Invariant), and
-- a chain for a set of keys (MergeHash/Calls). C++ methods that change their object return the new one
-- beside their result; `delete` and `new` leave nothing else to model, since no two links share a
-- table.
--
-- Bounds and fuel. The rounds of kicks count down from 500 as in the source, so their fuel is the
-- source's. The loops of `post_del` run for a number of rounds that is given, since neither need end:
-- an edge that is inserted again can turn another one out. The search of hole_Bfs has a bound on the
-- nodes, for which 2 ^ 32 always serves. BOBHash64 makes one round for each 24 bytes, which is what its
-- loop makes. Hashes and the sketch's counters wrap at 2 ^ 64 and 2 ^ 32. Widths and the counter
-- `num` are `int` in the source and unbounded here, so the model is of tables below 2 ^ 31 slots. Keys
-- and nodes are the 32-bit patterns of an `int`, and 0 is no key, since it marks a free slot.
--
-- Parameters. Floats is the arithmetic of `double`, of which a hypothesis says that 2 is not less than
-- `rate`. The results of `rand()` are any stream.
--
-- Not modelled: the statistics of the tests (`test_rate`, TEST_KICK, TEST_MEM), the AVX-512 branches,
-- which are not compiled, the other structures that the repository measures itself against
-- (WindBell, GSS, Auxo, TCM, Competitors), the readers of data sets and the experiments of main.cpp.
-- The weighted variant of the program is not modelled either.
pub mod Prelude
pub mod Hash
pub mod Bucket
pub mod Layer
pub mod Cuckoo
pub mod Sketch
pub mod Resize
pub mod Floats
pub mod Slot
pub mod NodeTable
pub mod HoleMerge
pub mod Bfs
pub mod MergeHash
mod Tests
