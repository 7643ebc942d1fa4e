-- ===== src/Tests/StoreRuns.antt =====
-- The graph store by evaluation.
use cuckoo_graph.Prelude.{ℕ, zero, suc, ◌≡◌, refl, ℤ, pos, negsuc, none, some, List, [], ◌∷◌, ◌++◌}
use cuckoo_graph.Slot
use cuckoo_graph.Slot.Neighbours
use cuckoo_graph.Slot.{Edge, edge}
use cuckoo_graph.NodeTable
use cuckoo_graph.NodeTable.Row
use cuckoo_graph.NodeTable.Layers
use cuckoo_graph.NodeTable.Kicks
use cuckoo_graph.NodeTable.Kicks.{NodeTable, Store}
use cuckoo_graph.HoleMerge
use cuckoo_graph.HoleMerge.{HoleMerge}
use cuckoo_graph.HoleMerge.Offer
use cuckoo_graph.HoleMerge.Merge
use cuckoo_graph.HoleMerge.Grow
use cuckoo_graph.HoleMerge.Shrink
use cuckoo_graph.HoleMerge.Run.{insert_all}
use cuckoo_graph.Bfs
use cuckoo_graph.Tests.Inputs.{fractions, empty_world, slot_code}

unfoldable pub store_code : Unit {0}
unfolding slot_code Row.insert_slot Row.query Row.query3_from Row.query3 Row.insert_known
    Row.insert_new Row.insert Row.del Layers.new Layers.query Layers.insert_slot Layers.read
    Layers.write Layers.insert Layers.del Kicks.kick_loop Kicks.kicks NodeTable.new
    NodeTable.insert_slot NodeTable.query NodeTable.query3 NodeTable.counted NodeTable.is_pos_zero
    NodeTable.insert NodeTable.del Offer.staged Offer.offer Offer.offer_all Offer.offer_edge
    Offer.room Merge.double_layer Merge.pour_row Merge.pour Merge.pour_both Merge.poured
    Merge.merge2 Merge.merge3 Merge.fill Merge.squeeze_row Merge.squeeze Merge.squeeze_layer
    Merge.offer_less Merge.compress HoleMerge.new HoleMerge.query_links HoleMerge.query_listed
    HoleMerge.query HoleMerge.query3_listed HoleMerge.query3_from HoleMerge.query3 HoleMerge.pick
    HoleMerge.pick_listed HoleMerge.slot_of HoleMerge.query_successor HoleMerge.get_neighbors
    HoleMerge.closing HoleMerge.triangles HoleMerge.query_triangles Grow.insert_place
    Grow.insert_linked Grow.insert_listed Grow.place Grow.reopen Grow.open_to Grow.merged
    Grow.insert_new Grow.insert Shrink.slots Shrink.move Shrink.fall_back Shrink.spread_slot
    Shrink.spread Shrink.measure Shrink.load Shrink.settle Shrink.del_links Shrink.del_listed
    Shrink.main_del Shrink.relist Shrink.rehome_slot Shrink.rehome Shrink.post_del Shrink.del
    insert_all Neighbours.query_successor Neighbours.get_neighbors Neighbours.gather
    Neighbours.taken Slot.Shrink.del Slot.Shrink.int_lt Bfs.visit Bfs.visit_all Bfs.search Bfs.begin
    Bfs.hole_bfs
store_code = tt

abbrev start : Store
start = record { world = empty_world; holekick = Slot.new }

-- The store after the edges of a list; no insertion dereferences a null pointer.
unfoldable stored : List Edge → HoleMerge × Store
stored es =
    let (m, g) = HoleMerge.new 4 2 0 221 start in
    elim (insert_all fractions es m g) [ none ↦ (m, g) | some x ↦ x ]

unfoldable sizes : HoleMerge → List (ℕ × ℕ × ℤ)
sizes m = go m.link
  where
    go : List NodeTable → List (ℕ × ℕ × ℤ)
    go [] = []
    go (c ∷ cs) = (c.len1, c.len2, c.num) ∷ go cs

-- The sources 1 to `n`, each with an edge to the source 1.
unfoldable fan : ℕ → List Edge
fan zero = []
fan (suc n) = fan n ++ edge (suc n) 1 ∷ []

-- Edges 3 → 5 → 7 → 3 and 3 → 9.
abbrev loop : List Edge
loop = edge 3 5 ∷ edge 5 7 ∷ edge 7 3 ∷ edge 3 9 ∷ []

queries :
    let (m, g) = stored loop in
    (HoleMerge.query_successor 3 [] m g.world ≡ (5 ∷ 9 ∷ [], 2))
    × (HoleMerge.query_triangles 5 m g.world ≡ 1)
    × (sizes m ≡ (4, 2, pos 3) ∷ [])
unfolding store_code stored sizes
queries = (refl, refl, refl)

-- The search from 5 lists 5, 7, 3 and 9.
searched :
    let (m, g) = stored loop in
    elim (Bfs.hole_bfs 9 m g.world 5) [ none ↦ [] | some t ↦ t.bfs_node ] ≡ 5 ∷ 7 ∷ 3 ∷ 9 ∷ []
unfolding store_code stored
searched = refl

-- What `del` answers, the tables after it, and the destinations of the source.
unfoldable after_del : Edge → HoleMerge × Store → ℤ × List (ℕ × ℕ × ℤ) × List ℕ
after_del e (m, g) = elim (Shrink.del fractions 9 e m g) [
  | none ↦ (pos 0, [], [])
  | some (ans, m', g') ↦ (ans, sizes m', (HoleMerge.query_successor e.src [] m' g'.world).0)
]

-- An edge that is one of two, the last edge of a source, and an edge that is not there.
deleted :
    (after_del (edge 3 5) (stored loop) ≡ (pos 1, (4, 2, pos 3) ∷ [], 9 ∷ []))
    × (after_del (edge 7 3) (stored loop) ≡ (negsuc 0, (4, 2, pos 2) ∷ [], []))
    × (after_del (edge 7 5) (stored loop) ≡ (pos 2, (4, 2, pos 3) ∷ [], 3 ∷ []))
    × (after_del (edge 8 5) (stored loop) ≡ (pos 0, (4, 2, pos 3) ∷ [], []))
    × (after_del (edge 1 1) (stored (edge 1 1 ∷ [])) ≡ (negsuc 0, [], []))
unfolding store_code stored sizes after_del
deleted = (refl, refl, refl, refl, refl)

-- 44 sources fill the first table, the next one opens a second table, 65 a third one; then the three
-- are merged.
tables :
    (sizes (stored (fan 44)).0 ≡ (4, 2, pos 44) ∷ [])
    × (sizes (stored (fan 45)).0 ≡ (4, 2, pos 44) ∷ (2, 1, pos 1) ∷ [])
    × (sizes (stored (fan 70)).0 ≡ (4, 2, pos 44) ∷ (2, 1, pos 22) ∷ (2, 1, pos 4) ∷ [])
    × (sizes (stored (fan 100)).0 ≡ (8, 4, pos 88) ∷ (4, 2, pos 12) ∷ [])
unfolding store_code stored sizes fan
tables = (refl, refl, refl, refl)
