-- ===== src/NodeTable/Layers.antt =====
-- CuckooGraph/main.cpp, class bLayer: an array of rows; a slot belongs in the row of its source.
use cuckoo_graph.Prelude.{ℕ, Bool, ℤ, Option, none, some, List, [], get_or, set, replicate}
use cuckoo_graph.Hash.{home}
use cuckoo_graph.Bucket.{Code}
use cuckoo_graph.Floats.{Floats}
use cuckoo_graph.Slot
use cuckoo_graph.Slot.{Edge, Slot, World}
use cuckoo_graph.NodeTable.Row
use cuckoo_graph.NodeTable.Row.{Row}

pub record Layer : Type 0 where
  pub layer : List Row
  pub length : ℕ
  pub seed : ℕ

unfoldable pub new : ℕ → ℕ → Layer
new num s = record { layer = replicate num Row.empty; length = num; seed = s }

abbrev pub index : ℕ → Layer → ℕ
index src l = home src l.seed l.length

abbrev pub row : ℕ → Layer → Row
row i l = get_or l.layer i []

unfoldable pub query : Edge → Layer → World → ℕ
query e l w = Row.query e (row (index e.src l) l) w

unfoldable pub insert_slot : Slot → Layer → Bool × Layer
insert_slot b l =
    let (done, r) = Row.insert_slot b (row (index b.src l) l) in
    (done, record l { layer = set l.layer (index b.src l) r })

-- `layer[pos].bslot[x]`, and `layer[pos].bslot[x] = b`
unfoldable pub read : ℕ → ℕ → Layer → Slot
read pos x l = get_or (row pos l) x Slot.new

unfoldable pub write : ℕ → ℕ → Slot → Layer → Layer
write pos x b l = record l { layer = set l.layer pos (set (row pos l) x b) }

module _ (fl : Floats) where
  unfoldable pub insert : Edge → Layer → World → Option (Code × Layer × World)
  insert e l w = elim (Row.insert fl e (row (index e.src l) l) w) [
    | none ↦ none
    | some (code, r, w') ↦ some (code, record l { layer = set l.layer (index e.src l) r }, w')
  ]

  unfoldable pub del : Edge → Layer → World → Option (ℤ × Layer × World)
  del e l w = elim (Row.del fl e (row (index e.src l) l) w) [
    | none ↦ none
    | some (ans, r, w') ↦ some (ans, record l { layer = set l.layer (index e.src l) r }, w')
  ]
