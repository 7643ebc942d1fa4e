-- ===== src/Tests/Squeezed.antt =====
-- A table of slots at half its width.
use cuckoo_graph.Prelude.{ℕ, ◌+◌, ◌≡◌, Bool, false, [], ◌∷◌, arith, tally}
use cuckoo_graph.Slot
use cuckoo_graph.Slot.Stands.{Stands}
use cuckoo_graph.NodeTable.Placement.{on}
use cuckoo_graph.NodeTable.Conserve.{total}
use cuckoo_graph.HoleMerge.Merge.{compress}
use cuckoo_graph.HoleMerge.Receive.{Stocked, stock}
use cuckoo_graph.HoleMerge.Merged.{Fits}
use cuckoo_graph.HoleMerge.Compress.{compress-Fits}
use cuckoo_graph.Tests.Inputs.{empty_world}
use cuckoo_graph.Tests.StoreWitnesses.{
  start, one_arrow, one_slot, one_slot_table, one_slot_table-Fits,
}

compress-Fits_example :
    let t = compress 0 221 (one_slot_table 4 2) (one_slot.0 ∷ []) start in
    Fits (Stands one_arrow empty_world) 0 221 2 1 t.table
    × Stocked (Stands one_arrow empty_world) t
    × ((p : ℕ → Bool)
        → p 0 ≡ false
        → stock p t ≡ total p (one_slot_table 4 2) + tally (on p) (one_slot.0 ∷ []))
    × (t.store.world.sblacklist ≡ [])
unfolding Slot.own
compress-Fits_example =
    compress-Fits (λ b h. h.tidy) {h1 = 2} {h2 = 1} (one_slot.0 ∷ []) start
      (one_slot_table-Fits 4 2 (omega arith) (omega arith)) (one_slot.3, tt)
      (unfold tally in ground (arith, one_slot.2))
