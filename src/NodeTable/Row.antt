-- ===== src/NodeTable/Row.antt =====
-- CuckooGraph/main.cpp, class bBucket: eight slots, each with the neighbours of one source.
use cuckoo_graph.Prelude.{
  ℕ, zero, suc, Bool, true, false, ℤ, pos, negsuc, Option, none, some, List, [], ◌∷◌, ◌==◌,
  if◌then◌else◌, replicate,
}
use cuckoo_graph.Bucket.{bup, Code, duplicate, no_room, inserted}
use cuckoo_graph.Floats.{Floats}
use cuckoo_graph.Slot
use cuckoo_graph.Slot.{Edge, Slot, World, is_slot_empty}

-- `bslot`
abbrev pub Row : Type 0
Row = List Slot

abbrev pub empty : Row
empty = replicate bup Slot.new

unfoldable pub insert_slot : Slot → Row → Bool × Row
insert_slot e [] = (false, [])
insert_slot e (b ∷ bs) =
    let (done, rest) = insert_slot e bs in
    if is_slot_empty b then (true, e ∷ bs) else (done, b ∷ rest)

unfoldable pub query : Edge → Row → World → ℕ
query e [] w = 0
query e (b ∷ bs) w = if b.src == e.src then Slot.query e b w else query e bs w

-- The answers of `query3`: `sure`, 1 with `bslotnum`, and 0.
pub data Seen : Type 0 where
  surely : Seen
  spot : ℕ → Seen
  missing : Seen

unfoldable pub query3_from : ℕ → Edge → Row → World → Seen
query3_from i e [] w = missing
query3_from i e (b ∷ bs) w =
    let rest = query3_from (suc i) e bs w in
    if b.src == e.src then if Slot.query e b w == 0 then spot i else surely else rest

unfoldable pub query3 : Edge → Row → World → Seen
query3 e bs w = query3_from 0 e bs w

module _ (fl : Floats) where
  -- The first loop of `insert`: the slot of the source takes the edge in.
  unfoldable pub insert_known : Edge → Row → World → Option (Bool × Row × World)
  insert_known e [] w = some (false, [], w)
  insert_known e (b ∷ bs) w =
      let rest = insert_known e bs w in
      if b.src == e.src
      then elim (Slot.Grow.insert fl e b w) [
        | none ↦ none
        | some (n, b', w') ↦ some (true, b' ∷ bs, w')
      ]
      else elim rest [ none ↦ none | some (done, bs', w') ↦ some (done, b ∷ bs', w') ]

  -- The second loop: the first slot whose `insert` does not return 0.
  unfoldable pub insert_new : Edge → Row → World → Option (Bool × Row × World)
  insert_new e [] w = some (false, [], w)
  insert_new e (b ∷ bs) w = elim (Slot.Grow.insert fl e b w) [
    | none ↦ none
    | some (pos zero, b', w') ↦ elim (insert_new e bs w') [
      | none ↦ none
      | some (done, bs', w'') ↦ some (done, b' ∷ bs', w'')
    ]
    | some (pos (suc n), b', w') ↦ some (true, b' ∷ bs, w')
    | some (negsuc n, b', w') ↦ some (true, b' ∷ bs, w')
  ]

  unfoldable pub insert : Edge → Row → World → Option (Code × Row × World)
  insert e bs w = elim (insert_known e bs w) [
    | none ↦ none
    | some (true, bs', w') ↦ some (duplicate, bs', w')
    | some (false, bs', w') ↦ elim (insert_new e bs' w') [
      | none ↦ none
      | some (true, bs'', w'') ↦ some (inserted, bs'', w'')
      | some (false, bs'', w'') ↦ some (no_room, bs'', w'')
    ]
  ]

  unfoldable pub del : Edge → Row → World → Option (ℤ × Row × World)
  del e [] w = some (pos 0, [], w)
  del e (b ∷ bs) w =
      let rest = del e bs w in
      if b.src == e.src
      then elim (Slot.Shrink.del fl e b w) [
        | none ↦ none
        | some (ans, b', w') ↦ some (ans, b' ∷ bs, w')
      ]
      else elim rest [ none ↦ none | some (ans, bs', w') ↦ some (ans, b ∷ bs', w') ]
