-- ===== src/MergeHash/Narrow.antt =====
-- What `mergehash1::insert` does where the second width is too small for three tables, as in
-- `mergehash1 hole(4, 2, 0, 221)` of CuckooGraph/main.cpp.
use cuckoo_graph.Layer
use cuckoo_graph.Cuckoo
use cuckoo_graph.Cuckoo.{Cuckoo}
use cuckoo_graph.Floats.{Floats}
use cuckoo_graph.MergeHash.{MergeHash}
