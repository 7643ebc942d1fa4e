-- ===== src/Tests/StoreWitnesses.antt =====
-- The theorems on the graph store and on its tables of slots, at concrete inputs.
use cuckoo_graph.Prelude.{
  ℕ, suc, ◌≤◌, ◌+◌, ◌*◌, ◌<◌, ◌≡◌, ◌≢◌, ◌↔◌, refl, Bool, true, false, ◌==◌, pos, some, List, [],
  ◌∷◌, ◌++◌, arith, length, map, tally, to_nat, All,
}
use cuckoo_graph.Cuckoo.Invariant.{is}
use cuckoo_graph.Slot
use cuckoo_graph.Slot.{Edge, edge, Slot, World, on_list}
use cuckoo_graph.Slot.Stands.{Graph, adds, Stands, new_slot-Stands, free-Extends}
use cuckoo_graph.NodeTable
use cuckoo_graph.NodeTable.Kicks.{NodeTable, Store, Outcome}
use cuckoo_graph.NodeTable.Placement.{on}
use cuckoo_graph.NodeTable.Conserve.{
  IsSound, Takes, total, new-IsSound, new-total, insert_slot-Takes,
}
use cuckoo_graph.NodeTable.Enter.{insert_edge-Takes}
use cuckoo_graph.HoleMerge
use cuckoo_graph.HoleMerge.{HoleMerge}
use cuckoo_graph.HoleMerge.Grow
use cuckoo_graph.HoleMerge.Merge.{merge3}
use cuckoo_graph.HoleMerge.Receive.{Stocked, stock}
use cuckoo_graph.HoleMerge.Merged.{Fits, merge3-Fits}
use cuckoo_graph.HoleMerge.Invariant.{Represents, no_edges, new_store-Represents, query-graph}
use cuckoo_graph.HoleMerge.Fresh.{Adds}
use cuckoo_graph.HoleMerge.Insert.{insert-Adds}
use cuckoo_graph.HoleMerge.Run.{
  insert_all, adds_all, IsLive, insert_all-Represents, query-insert_all,
}
use cuckoo_graph.HoleMerge.Successors.{successors-graph}
use cuckoo_graph.HoleMerge.Triangles.{Triangle, query_triangles-graph}
use cuckoo_graph.Bfs.{Search, hole_bfs}
use cuckoo_graph.Bfs.Reached.{Reach, hole_bfs-Reach}
use cuckoo_graph.Tests.Inputs.{fractions, empty_world}

abbrev pub start : Store
start = record { world = empty_world; holekick = Slot.new }

abbrev bare_store : HoleMerge × Store
bare_store = HoleMerge.new (1 * 2) (1 * 2) 0 221 start

bare-Represents : Represents no_edges bare_store.0 bare_store.1.world
bare-Represents = new_store-Represents 1 1 0 221 start (omega arith) (omega arith)

new_store-Represents_example : Represents no_edges bare_store.0 bare_store.1.world
new_store-Represents_example = new_store-Represents 1 1 0 221 start (omega arith) (omega arith)

-- A triangle, and an edge that is there twice.
abbrev four_edges : List Edge
four_edges = edge 3 5 ∷ edge 5 7 ∷ edge 7 3 ∷ edge 3 5 ∷ []

four-IsLive : All IsLive four_edges
four-IsLive = (
  (omega arith, omega arith),
  ((omega arith, omega arith), ((omega arith, omega arith), ((omega arith, omega arith), tt))),
)

query-insert_all_example :
    (m : HoleMerge) × (g : Store) × (insert_all fractions four_edges bare_store.0 bare_store.1
      ≡ some (m, g))
    × ((e : Edge)
        → e.src ≢ 0
        → e.dst ≢ 0
        → (0 < HoleMerge.query e m g.world) ↔ (on_list e four_edges ≡ true))
query-insert_all_example =
    query-insert_all fractions 1 1 0 221 start four_edges (omega arith) (omega arith) four-IsLive

-- The store with the four edges.
filled_store :
    (m : HoleMerge) × (g : Store) × (insert_all fractions four_edges bare_store.0 bare_store.1
      ≡ some (m, g))
    × Represents (adds_all four_edges no_edges) m g.world
filled_store =
    insert_all-Represents fractions four_edges bare_store.0 bare_store.1 bare-Represents four-IsLive

abbrev triangle : Graph
triangle = adds_all four_edges no_edges

insert-Adds_example :
    Adds triangle (edge 5 9) (Grow.insert fractions (edge 5 9) filled_store.0 filled_store.1)
insert-Adds_example =
    insert-Adds fractions triangle (edge 5 9) filled_store.0 filled_store.1 (omega arith)
      (omega arith) filled_store.3

query-graph_example :
    (0 < HoleMerge.query (edge 7 3) filled_store.0 filled_store.1.world) ↔ (triangle 7 3 ≡ true)
query-graph_example = query-graph (edge 7 3) filled_store.3 (omega arith) (omega arith)

successors-graph_example :
    (ks : List ℕ) × (HoleMerge.query_successor 3 (8 ∷ []) filled_store.0 filled_store.1.world
      ≡ (8 ∷ [] ++ ks, length ks))
    × (HoleMerge.get_neighbors 3 filled_store.0 filled_store.1.world ≡ map (λ d. (d, 1)) ks)
    × (tally (is 0) ks ≡ 0)
    × ((d : ℕ) → d ≢ 0 → tally (is d) ks ≡ to_nat (triangle 3 d))
successors-graph_example = successors-graph 3 (8 ∷ []) filled_store.3 (omega arith)

query_triangles-graph_example :
    (0 < HoleMerge.query_triangles 3 filled_store.0 filled_store.1.world)
    ↔ ((mid : ℕ) × (far : ℕ) × Triangle triangle 3 mid far)
query_triangles-graph_example =
    query_triangles-graph triangle filled_store.0 filled_store.1.world filled_store.3 3
      (omega arith)

abbrev pub one_arrow : Graph
one_arrow = adds (edge 3 5) no_edges

-- The slot of the source 3 with the destination 5.
pub one_slot :
    (b : Slot) × (Slot.Grow.insert fractions (edge 3 5) Slot.new empty_world
      ≡ some (pos 1, b, empty_world))
    × (b.src ≡ 3)
    × Stands one_arrow empty_world b
unfolding Slot.own
one_slot =
    free-Extends fractions {graph = no_edges} (edge 3 5) (new_slot-Stands no_edges empty_world refl)
      (omega arith) (omega arith) (unfold Slot.new in refl) refl (λ d. refl)

abbrev narrow_table : NodeTable
narrow_table = NodeTable.new 2 1 0 221

narrow-IsSound : IsSound (Stands one_arrow empty_world) narrow_table
unfolding Slot.own
narrow-IsSound =
    new-IsSound 2 1 0 221 (omega arith) (omega arith) (new_slot-Stands one_arrow empty_world refl)

insert_slot-Takes_example :
    Takes
      (Stands one_arrow empty_world)
      one_slot.0.src
      narrow_table
      start
      (NodeTable.insert_slot one_slot.0 narrow_table start)
insert_slot-Takes_example =
    insert_slot-Takes (λ b h. h.tidy) one_slot.0 start narrow-IsSound one_slot.3
      (ground (arith, one_slot.2))

insert_edge-Takes_example :
    (r : Outcome) × (NodeTable.insert fractions (edge 3 5) narrow_table start ≡ some r)
    × Takes (Stands one_arrow empty_world) 3 narrow_table start r
unfolding Slot.own
insert_edge-Takes_example =
    insert_edge-Takes fractions no_edges (edge 3 5) narrow_table start (omega arith) (omega arith)
      refl refl (λ d. refl) narrow-IsSound (new-total 2 1 0 221 (λ s. s == 3) refl)

-- A table with the slot of the source 3.
abbrev pub one_slot_table : ℕ → ℕ → NodeTable
one_slot_table l1 l2 = (NodeTable.insert_slot one_slot.0 (NodeTable.new l1 l2 0 221) start).table

pub one_slot_table-Fits :
    (l1 l2 : ℕ)
    → 0 < l1
    → 0 < l2
    → Fits (Stands one_arrow empty_world) 0 221 l1 l2 (one_slot_table l1 l2)
unfolding NodeTable.new Slot.own
one_slot_table-Fits l1 l2 p q =
    let t =
      insert_slot-Takes (λ b h. h.tidy) one_slot.0 start
        (new-IsSound l1 l2 0 221 p q (new_slot-Stands one_arrow empty_world refl)) one_slot.3
        (ground (arith, one_slot.2)) in
    record { sound = t.sound; seed1 = t.seed1; seed2 = t.seed2; len1 = t.len1; len2 = t.len2 }

merge3-Fits_example :
    let t =
      merge3 0 221
        (one_slot_table 4 2)
        (one_slot_table 2 1)
        (one_slot_table 2 1)
        (one_slot.0 ∷ [])
        start in
    Fits (Stands one_arrow empty_world) 0 221 8 4 t.table
    × Stocked (Stands one_arrow empty_world) t
    × ((p : ℕ → Bool)
        → p 0 ≡ false
        → stock p t
          ≡ total p (one_slot_table 4 2)
            + total p (one_slot_table 2 1)
            + total p (one_slot_table 2 1)
            + tally (on p) (one_slot.0 ∷ []))
    × (t.store.world.sblacklist ≡ [])
unfolding Slot.own
merge3-Fits_example =
    merge3-Fits (λ b h. h.tidy) (new_slot-Stands one_arrow empty_world refl) {a1 = 2} {a2 = 1}
      (one_slot.0 ∷ []) start (one_slot_table-Fits 4 2 (omega arith) (omega arith))
      (one_slot_table-Fits 2 1 (omega arith) (omega arith))
      (one_slot_table-Fits 2 1 (omega arith) (omega arith)) (one_slot.3, tt)
      (unfold tally in ground (arith, one_slot.2))

triangle_below : (s d : ℕ) → triangle s d ≡ true → d < 8
triangle_below s d h = ground (arith, h)

hole_bfs-Reach_example :
    (t : Search) × (hole_bfs (suc 8) filled_store.0 filled_store.1.world 5 ≡ some t)
    × ((d : ℕ) → (0 < tally (is d) t.bfs_node) ↔ Reach triangle 5 d)
    × ((d : ℕ) → tally (is d) t.bfs_node ≤ 1)
    × (t.node_num ≡ length t.bfs_node)
hole_bfs-Reach_example =
    hole_bfs-Reach triangle filled_store.0 filled_store.1.world filled_store.3 8 5 triangle_below
      (omega arith)
