-- ===== src/NodeTable.antt =====
-- CuckooGraph/main.cpp, class bCuckoo: the cuckoo table of the source nodes, whose keys are whole
-- slots. `holekick` is the global variable with the slot left over when the rounds of kicks run out.
pub mod Row
pub mod Layers
pub mod Kicks
pub mod Placement
pub mod Conserve
pub mod Enter
pub mod Lookup
pub mod Update
pub mod Uncounted
use cuckoo_graph.Prelude.{
  ℕ, zero, suc, Bool, true, false, ℤ, pos, negsuc, inc, dec, Option, none, some, ◌==◌,
  if◌then◌else◌,
}
use cuckoo_graph.Bucket.{duplicate, no_room, inserted}
use cuckoo_graph.Floats.{Floats}
use cuckoo_graph.Slot
use cuckoo_graph.Slot.{Edge, Slot, World}
use Row.{Seen, surely, spot, missing}
use Layers.{Layer}
use Kicks.{NodeTable, Store, Outcome, rounds, kicks}

unfoldable pub new : ℕ → ℕ → ℕ → ℕ → NodeTable
new l1 l2 s1 s2 = record {
  len1 = l1;
  len2 = l2;
  seed1 = s1;
  seed2 = s2;
  num = pos 0;
  layer1 = Layers.new l1 s1;
  layer2 = Layers.new l2 s2;
}

-- `insert(bSlot item)`
unfoldable pub insert_slot : Slot → NodeTable → Store → Outcome
insert_slot item c g =
    let (a, m) = Layers.insert_slot item c.layer1 in
    let (b, n) = Layers.insert_slot item c.layer2 in
    if a
    then record { done = true; table = record c { num = inc c.num; layer1 = m }; store = g }
    else if b
    then record { done = true; table = record c { num = inc c.num; layer2 = n }; store = g }
    else kicks rounds item c g

unfoldable pub query : Edge → NodeTable → World → ℕ
query e c w =
    let ans = Layers.query e c.layer1 w in if ans == 0 then Layers.query e c.layer2 w else ans

-- `query3`: whether the edge is there for sure, or else the place of the slot of its source.
-- The variables `layernum`, `idth` and `bslotnum` are part of the answer.
pub data Place : Type 0 where
  sure : Place
  first : ℕ → ℕ → Place
  second : ℕ → ℕ → Place
  nowhere : Place

unfoldable pub query3 : Edge → NodeTable → World → Place
query3 e c w =
    let p = Layers.index e.src c.layer1 in
    let q = Layers.index e.src c.layer2 in
    elim (Row.query3 e (Layers.row p c.layer1) w) [
      | surely ↦ sure
      | spot i ↦ first p i
      | missing ↦ elim (Row.query3 e (Layers.row q c.layer2) w) [
        | surely ↦ sure
        | spot i ↦ second q i
        | missing ↦ nowhere
      ]
    ]

-- What `del` answers for the answer of a layer, with the counter: -1 where a slot came free.
unfoldable pub counted : ℤ → ℤ → ℤ × ℤ
counted (negsuc n) num = (negsuc 0, dec num)
counted (pos (suc (suc zero))) num = (pos 2, num)
counted (pos n) num = (pos 1, num)

unfoldable pub is_pos_zero : ℤ → Bool
is_pos_zero (pos zero) = true
is_pos_zero (pos (suc n)) = false
is_pos_zero (negsuc n) = false

module _ (fl : Floats) where
  -- `insert(Edge item)`
  unfoldable pub insert : Edge → NodeTable → Store → Option Outcome
  insert e c g = elim (Layers.insert fl e c.layer1 g.world) [
    | none ↦ none
    | some (duplicate, m, w) ↦
        some
          (record { done = true; table = record c { layer1 = m }; store = record g { world = w } })
    | some (inserted, m, w) ↦ some (record {
      done = true;
      table = record c { num = inc c.num; layer1 = m };
      store = record g { world = w };
    })
    | some (no_room, m, w) ↦ elim (Layers.insert fl e c.layer2 w) [
      | none ↦ none
      | some (duplicate, n, w') ↦ some (record {
        done = true;
        table = record c { layer1 = m; layer2 = n };
        store = record g { world = w' };
      })
      | some (inserted, n, w') ↦ some (record {
        done = true;
        table = record c { num = inc c.num; layer1 = m; layer2 = n };
        store = record g { world = w' };
      })
      | some (no_room, n, w') ↦ elim (Slot.Grow.insert fl e Slot.new w') [
        | none ↦ none
        | some (code, ins, w'') ↦
            some (kicks rounds ins (record c { layer1 = m; layer2 = n }) (record g { world = w'' }))
      ]
    ]
  ]

  unfoldable pub del : Edge → NodeTable → World → Option (ℤ × NodeTable × World)
  del e c w = elim (Layers.del fl e c.layer1 w) [
    | none ↦ none
    | some (ans, m, w') ↦
        let (code, num) = counted ans c.num in
        if is_pos_zero ans
        then elim (Layers.del fl e c.layer2 w') [
          | none ↦ none
          | some (ans2, n, w'') ↦
              let (code2, num2) = counted ans2 c.num in
              if is_pos_zero ans2
              then some (pos 0, record c { layer1 = m; layer2 = n }, w'')
              else some (code2, record c { num = num2; layer1 = m; layer2 = n }, w'')
        ]
        else some (code, record c { num = num; layer1 = m }, w')
  ]
