-- ===== src/HoleMerge/Shrink.antt =====
-- CuckooGraph/main.cpp, holemerge::main_del, holemerge::post_del and holemerge::del. A dereference of
-- a null pointer, a failed `assert`, and a loop of `post_del` that is longer than the given number of
-- rounds, is the result `none`.
use cuckoo_graph.Prelude.{
  ℕ, zero, suc, ◌+◌, ◌*◌, Bool, true, false, ◌&&◌, ℤ, pos, negsuc, Option, none, some, List, [],
  ◌∷◌, ◌++◌, ◌==◌, ltb, leb, if◌then◌else◌, flatten, length,
}
use cuckoo_graph.Bucket.{bup}
use cuckoo_graph.Floats.{Floats}
use cuckoo_graph.MergeHash.{is_zero}
use cuckoo_graph.Slot.{Edge, Slot, World, sbl, is_slot_empty}
use cuckoo_graph.Slot.Shrink
use cuckoo_graph.Slot.Shrink.{int_lt}
use cuckoo_graph.NodeTable
use cuckoo_graph.NodeTable.{is_pos_zero}
use cuckoo_graph.NodeTable.Kicks.{NodeTable, Store}
use cuckoo_graph.HoleMerge.{HoleMerge, bbl, bminc2}
use cuckoo_graph.HoleMerge.Offer.{Stage, offer, room}
use cuckoo_graph.HoleMerge.Merge.{compress}
use cuckoo_graph.HoleMerge.Grow.{insert}

-- The slots in the order of the loops: the rows of the first layer, then those of the second.
unfoldable pub slots : NodeTable → List Slot
slots c = flatten c.layer1.layer ++ flatten c.layer2.layer

-- The slots of a table that is given up go into the table of the stage.
unfoldable pub move : List Slot → Stage → Stage
move [] s = s
move (b ∷ bs) s = let t = offer b s in move bs (if is_slot_empty b then s else t)

-- The first table and the one that stays, the blacklist, and the global variables.
pub record Pair : Type 0 where
  pub first : NodeTable
  pub other : NodeTable
  pub left : List Slot
  pub store : Store

-- The slot goes into the other table.
unfoldable pub fall_back : Slot → Pair → Pair
fall_back b p =
    let s = offer b (record { table = p.other; left = p.left; store = p.store }) in
    record p { other = s.table; left = s.left; store = s.store }

module _ (fl : Floats) where
  open fl use {Double, of_int, add, mul, div, lt, cthres}

  -- One slot of a third table goes into the first one while it has room, else into the other one.
  unfoldable pub spread_slot : Slot → Pair → Pair
  spread_slot b p =
      let r = NodeTable.insert_slot b p.first p.store in
      let tried : Pair = record p { first = r.table; store = r.store } in
      if is_slot_empty b
      then p
      else if room fl p.first
      then if r.done then tried else fall_back b tried
      else fall_back b p

  unfoldable pub spread : List Slot → Pair → Pair
  spread [] p = p
  spread (b ∷ bs) p = spread bs (spread_slot b p)

  -- The loop that sums up the slots in use and all slots.
  unfoldable pub measure : List NodeTable → Double → Double → Double × Double
  measure [] num sum = (num, sum)
  measure (c ∷ cs) num sum =
      measure cs (add num (of_int c.num)) (add sum (of_int (pos ((c.len1 + c.len2) * bup))))

  -- `num / sum`
  unfoldable pub load : List NodeTable → Double
  load cs = let (num, sum) = measure cs (of_int (pos 0)) (of_int (pos 0)) in div num sum

  -- What becomes of the tables after a slot came free, for the number of tables.
  unfoldable pub settle : List NodeTable → HoleMerge → Store → HoleMerge × Store
  settle [] m g = (m, g)
  settle (c0 ∷ []) m g =
      let s = compress m.s1 m.s2 c0 m.blacklist g in
      if is_zero c0.num
      then (record m { link = [] }, g)
      else if leb bminc2 c0.len2 && lt (load (c0 ∷ [])) cthres
      then (record m { link = s.table ∷ []; blacklist = s.left }, s.store)
      else (record m { link = c0 ∷ [] }, g)
  settle (c0 ∷ c1 ∷ []) m g =
      let s = move (slots c1) (record { table = c0; left = m.blacklist; store = g }) in
      if is_zero c1.num
      then (record m { link = c0 ∷ [] }, g)
      else if lt (load (c0 ∷ c1 ∷ [])) cthres
      then (record m { link = s.table ∷ []; blacklist = s.left }, s.store)
      else (record m { link = c0 ∷ c1 ∷ [] }, g)
  settle (c0 ∷ c1 ∷ c2 ∷ cs) m g =
      let less = int_lt c1.num c2.num in
      let sm = if less then c1 else c2 in
      let bi = if less then c2 else c1 in
      let p =
        spread (slots sm) (record { first = c0; other = bi; left = m.blacklist; store = g }) in
      if is_zero sm.num
      then (record m { link = c0 ∷ bi ∷ cs }, g)
      else if lt (load (c0 ∷ c1 ∷ c2 ∷ cs)) cthres
      then (record m { link = p.first ∷ p.other ∷ cs; blacklist = p.left }, p.store)
      else (record m { link = c0 ∷ c1 ∷ c2 ∷ cs }, g)

  -- `link[II]->del(e)` until it does not answer 0
  unfoldable pub del_links : Edge → List NodeTable → World → Option (ℤ × List NodeTable × World)
  del_links e [] w = some (pos 0, [], w)
  del_links e (c ∷ cs) w = elim (NodeTable.del fl e c w) [
    | none ↦ none
    | some (ans, c', w') ↦
        let rest = del_links e cs w' in
        if is_pos_zero ans
        then elim rest [ none ↦ none | some (ans2, cs', w'') ↦ some (ans2, c' ∷ cs', w'') ]
        else some (ans, c' ∷ cs, w')
  ]

  -- the loop over the blacklist
  unfoldable pub del_listed : Edge → List Slot → World → Option (ℤ × List Slot × World)
  del_listed e [] w = some (pos 0, [], w)
  del_listed e (b ∷ bs) w =
      let rest = del_listed e bs w in
      if b.src == e.src
      then elim (Shrink.del fl e b w) [
        | none ↦ none
        | some (pos zero, b', w') ↦ elim (del_listed e bs w') [
          | none ↦ none
          | some (ans, bs', w'') ↦ some (ans, b' ∷ bs', w'')
        ]
        | some (pos (suc (suc zero)), b', w') ↦ some (pos 2, b' ∷ bs, w')
        | some (pos (suc n), b', w') ↦ some (pos 1, b' ∷ bs, w')
        | some (negsuc n, b', w') ↦ some (negsuc 0, bs, w')
      ]
      else elim rest [ none ↦ none | some (ans, bs', w') ↦ some (ans, b ∷ bs', w') ]

  unfoldable pub main_del : Edge → HoleMerge → Store → Option (ℤ × HoleMerge × Store)
  main_del e m g = elim (del_links e m.link g.world) [
    | none ↦ none
    | some (pos zero, cs, w) ↦ elim (del_listed e m.blacklist w) [
      | none ↦ none
      | some (ans, bs, w') ↦
          some (ans, record m { link = cs; blacklist = bs }, record g { world = w' })
    ]
    | some (pos (suc n), cs, w) ↦ some (pos (suc n), record m { link = cs }, record g { world = w })
    | some (negsuc n, cs, w) ↦
        let (m', g') = settle cs (record m { link = cs }) (record g { world = w }) in
        some (negsuc n, m', g')
  ]

  -- `while (sblacklist.size() > sbl)`: the first edge of the list is inserted again.
  unfoldable pub relist : ℕ → HoleMerge → Store → Option (HoleMerge × Store)
  relist zero m g = if ltb sbl (length g.world.sblacklist) then none else some (m, g)
  relist (suc n) m g = elim g.world.sblacklist [
    | [] ↦ some (m, g)
    | e ∷ es ↦
        let again = insert fl e m (record g { world = record g.world { sblacklist = es } }) in
        if ltb sbl (suc (length es))
        then elim again [ none ↦ none | some (done, m', g') ↦ relist n m' g' ]
        else some (m, g)
  ]

  -- The loop over `i`: the slot goes into the last table that has room; where none has, it is gone.
  unfoldable pub rehome_slot :
      Slot → List NodeTable → List Slot → Store → Bool × List NodeTable × List Slot × Store
  rehome_slot b [] left g = (false, [], left, g)
  rehome_slot b (c ∷ cs) left g =
      let (found, cs', left', g') = rehome_slot b cs left g in
      let s = offer b (record { table = c; left = left; store = g }) in
      if found
      then (true, c ∷ cs', left', g')
      else if room fl c
      then (true, s.table ∷ cs, s.left, s.store)
      else (false, c ∷ cs, left, g)

  -- `while (blacklist.size() > bbl)`
  unfoldable pub rehome : ℕ → HoleMerge → Store → Option (HoleMerge × Store)
  rehome zero m g = if ltb bbl (length m.blacklist) then none else some (m, g)
  rehome (suc n) m g = elim m.blacklist [
    | [] ↦ some (m, g)
    | b ∷ bs ↦
        let (found, cs, left, g') = rehome_slot b m.link bs g in
        let rest = rehome n (record m { link = cs; blacklist = left }) g' in
        if ltb bbl (suc (length bs)) then rest else some (m, g)
  ]

  -- `post_del`, with a bound on the rounds of either loop
  unfoldable pub post_del : ℕ → HoleMerge → Store → Option (HoleMerge × Store)
  post_del rounds m g = elim (relist rounds m g) [
    | none ↦ none
    | some (m', g') ↦ rehome rounds m' g'
  ]

  unfoldable pub del : ℕ → Edge → HoleMerge → Store → Option (ℤ × HoleMerge × Store)
  del rounds e m g = elim (main_del e m g) [
    | none ↦ none
    | some (ans, m', g') ↦ elim (post_del rounds m' g') [
      | none ↦ none
      | some (m'', g'') ↦ some (ans, m'', g'')
    ]
  ]
