-- ===== src/Slot/Neighbours.antt =====
-- CuckooGraph/main.cpp, bSlot::query_successor and bSlot::GetNeighbors.
use cuckoo_graph.Prelude.{
  ℕ, Option, none, some, List, [], ◌∷◌, ◌++◌, ◌==◌, if◌then◌else◌, map, length,
}
use cuckoo_graph.Cuckoo.{Cuckoo}
use cuckoo_graph.Slot.{World, few, grown, Slot, own}
use cuckoo_graph.Slot.Shrink.{contents}

-- The slots that are not free.
unfoldable pub taken : List ℕ → List ℕ
taken [] = []
taken (x ∷ xs) = if x == 0 then taken xs else x ∷ taken xs

unfoldable pub table_keys : Option Cuckoo → List ℕ
table_keys none = []
table_keys (some c) = taken (contents c)

-- The keys in the order of the loops.
unfoldable pub gather : ℕ → Slot → World → List ℕ
gather s b w = elim b.slot [
  | grown s0 s1 s2 ↦ table_keys s0 ++ table_keys s1 ++ table_keys s2 ++ own s w.sblacklist
  | few pt ks ↦ if pt == 0 then [] else taken ks
]

-- The array up to the last entry that is written, and how many are written from position `r` on;
-- `successor` holds the `r` entries before that.
unfoldable pub query_successor : ℕ → List ℕ → Slot → World → List ℕ × ℕ
query_successor s successor b w = (successor ++ gather s b w, length (gather s b w))

-- The neighbours, each with the weight 1.
unfoldable pub get_neighbors : ℕ → Slot → World → List (ℕ × ℕ)
get_neighbors s b w = map (λ d. (d, 1)) (gather s b w)
