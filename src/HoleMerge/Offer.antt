-- ===== src/HoleMerge/Offer.antt =====
-- CuckooGraph/main.cpp: what the methods of holemerge share. Slots and edges go into a bCuckoo, and a
-- slot that is turned out of it goes to the end of a list.
use cuckoo_graph.Prelude.{
  ◌+◌, ◌*◌, Bool, Option, none, some, List, [], ◌∷◌, ◌++◌, pos, if◌then◌else◌,
}
use cuckoo_graph.Bucket.{bup}
use cuckoo_graph.Floats.{Floats}
use cuckoo_graph.Slot.{Edge, Slot}
use cuckoo_graph.NodeTable
use cuckoo_graph.NodeTable.Kicks.{NodeTable, Store, Outcome}

-- The table, the list `blacklist` or the queue of the loop, and the global variables.
pub record Stage : Type 0 where
  pub table : NodeTable
  pub left : List Slot
  pub store : Store

-- `if (!…) left.push_back(holekick);`
unfoldable pub staged : List Slot → Outcome → Stage
staged left r = record {
  table = r.table;
  left = if r.done then left else left ++ r.store.holekick ∷ [];
  store = r.store;
}

unfoldable pub offer : Slot → Stage → Stage
offer b s = staged s.left (NodeTable.insert_slot b s.table s.store)

unfoldable pub offer_all : List Slot → Stage → Stage
offer_all [] s = s
offer_all (b ∷ bs) s = offer_all bs (offer b s)

unfoldable pub offer_edge : Floats → Edge → Stage → Option Stage
offer_edge fl e s = elim (NodeTable.insert fl e s.table s.store) [
  | none ↦ none
  | some r ↦ some (staged s.left r)
]

-- `link[i]->num < (link[i]->len1 + link[i]->len2) * bup * rate`
unfoldable pub room : Floats → NodeTable → Bool
room fl c = fl.lt (fl.of_int c.num) (fl.mul (fl.of_int (pos ((c.len1 + c.len2) * bup))) fl.rate)
