-- ===== src/Tests/Drained.antt =====
-- A table with a slot of the source 3 that has no tables, while the list has the edge from 3 to 5.
use cuckoo_graph.Prelude.{
  ℕ, zero, suc, ◌<◌, ◌≡◌, refl, Bool, some, pos, negsuc, dec, [], ◌∷◌, arith, length, replicate,
  tally, All,
}
use cuckoo_graph.Hash.{mmhash, home}
use cuckoo_graph.Bucket.{bup}
use cuckoo_graph.Slot
use cuckoo_graph.Slot.{edge, Slot, World}
use cuckoo_graph.NodeTable.{del, query, first}
use cuckoo_graph.NodeTable.Layers
use cuckoo_graph.NodeTable.Layers.{Layer}
use cuckoo_graph.NodeTable.Kicks.{NodeTable}
use cuckoo_graph.NodeTable.Placement.{on, misplaced, new_layer-IsValid}
use cuckoo_graph.NodeTable.Conserve.{IsSound, total}
use cuckoo_graph.NodeTable.Uncounted.{drained, num-del_insert}
use cuckoo_graph.HoleMerge.Grow.{insert_place}
use cuckoo_graph.Tests.Inputs.{fractions, globals}

abbrev AnySlot : Slot → Type 0
AnySlot b = Unit

abbrev first_layer : Layer
first_layer = record { layer = (drained 3 ∷ replicate 7 Slot.new) ∷ []; length = 1; seed = 0 }

abbrev drained_table : NodeTable
drained_table = record {
  len1 = 1;
  len2 = 1;
  seed1 = 0;
  seed2 = 221;
  num = pos 1;
  layer1 = first_layer;
  layer2 = Layers.new 1 221;
}

abbrev listing : World
listing = record { globals = globals; sblacklist = edge 3 5 ∷ [] }

first_width : (i : ℕ) → i < 1 → length (Layers.row i first_layer) ≡ bup
first_width zero h = refl
first_width (suc i) h = absurd (omega arith)

first_placed : (i : ℕ) → tally (on (misplaced first_layer i)) (Layers.row i first_layer) ≡ 0
unfolding tally Slot.new home mmhash
first_placed zero = refl
first_placed (suc i) = refl

first_stands : (i : ℕ) → All AnySlot (Layers.row i first_layer)
first_stands zero = (tt, (tt, (tt, (tt, (tt, (tt, (tt, (tt, tt))))))))
first_stands (suc i) = tt

drained-IsSound : IsSound AnySlot drained_table
unfolding Layers.new
drained-IsSound = record {
  valid1 = record {
    sized = refl;
    positive = omega arith;
    widths = first_width;
    placed = first_placed;
    stands = first_stands;
  };
  valid2 = unfold Layers.new in new_layer-IsValid 1 221 (omega arith) tt;
  length1 = refl;
  length2 = refl;
  same_seed1 = refl;
  same_seed2 = refl;
}

num-del_insert_example :
    (c1 : NodeTable) × (w1 : World) × (c2 : NodeTable) × (w2 : World) × (del fractions
        (edge 3 5)
        drained_table
        listing
      ≡ some (negsuc 0, c1, w1))
    × (insert_place fractions (edge 3 5) (first (Layers.index 3 first_layer) 0) c1 w1
        ≡ some (c2, w2))
    × (0 < query (edge 3 5) c2 w2)
    × (c2.num ≡ dec (pos 1))
    × ((p : ℕ → Bool) → total p c2 ≡ total p drained_table)
unfolding home mmhash Slot.own
num-del_insert_example =
    num-del_insert fractions (edge 3 5) drained_table listing (replicate 7 Slot.new) drained-IsSound
      (omega arith) refl refl
