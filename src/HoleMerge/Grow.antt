-- ===== src/HoleMerge/Grow.antt =====
-- CuckooGraph/main.cpp, holemerge::insert. A dereference of a null pointer in it, and a failed
-- `assert`, is the result `none`.
use cuckoo_graph.Prelude.{
  ℕ, zero, suc, ◌/◌, Bool, true, false, not, ◌&&◌, ◌||◌, Option, none, some, List, [], ◌∷◌, ltb,
  leb, if◌then◌else◌, length,
}
use cuckoo_graph.Floats.{Floats}
use cuckoo_graph.Slot.Grow
use cuckoo_graph.Slot.{Edge, Slot, World}
use cuckoo_graph.NodeTable
use cuckoo_graph.NodeTable.{Place, sure, first, second, nowhere}
use cuckoo_graph.NodeTable.Layers
use cuckoo_graph.NodeTable.Kicks.{NodeTable, Store}
use cuckoo_graph.HoleMerge.{HoleMerge, surely, linked, listed, missing, query3, bbl}
use cuckoo_graph.HoleMerge.Offer.{Stage, offer_all, offer_edge, room}
use cuckoo_graph.HoleMerge.Merge.{merge3}

-- The new table takes in the slots of the blacklist first; those that it turns out are the new
-- blacklist.
unfoldable pub reopen : List Slot → NodeTable → Store → Stage
reopen bs c g = offer_all bs (record { table = c; left = []; store = g })

module _ (fl : Floats) where
  -- `insert` into the slot that `query3` found in a table
  unfoldable pub insert_place : Edge → Place → NodeTable → World → Option (NodeTable × World)
  insert_place e sure c w = some (c, w)
  insert_place e nowhere c w = some (c, w)
  insert_place e (first p x) c w = elim (Grow.insert fl e (Layers.read p x c.layer1) w) [
    | none ↦ none
    | some (code, b, w') ↦ some (record c { layer1 = Layers.write p x b c.layer1 }, w')
  ]
  insert_place e (second p x) c w = elim (Grow.insert fl e (Layers.read p x c.layer2) w) [
    | none ↦ none
    | some (code, b, w') ↦ some (record c { layer2 = Layers.write p x b c.layer2 }, w')
  ]

  unfoldable pub insert_linked :
      Edge → ℕ → Place → List NodeTable → World → Option (List NodeTable × World)
  insert_linked e i p [] w = none
  insert_linked e zero p (c ∷ cs) w = elim (insert_place e p c w) [
    | none ↦ none
    | some (c', w') ↦ some (c' ∷ cs, w')
  ]
  insert_linked e (suc i) p (c ∷ cs) w = elim (insert_linked e i p cs w) [
    | none ↦ none
    | some (cs', w') ↦ some (c ∷ cs', w')
  ]

  -- `blacklist[idth].insert(e)`
  unfoldable pub insert_listed : Edge → ℕ → List Slot → World → Option (List Slot × World)
  insert_listed e j [] w = none
  insert_listed e zero (b ∷ bs) w = elim (Grow.insert fl e b w) [
    | none ↦ none
    | some (code, b', w') ↦ some (b' ∷ bs, w')
  ]
  insert_listed e (suc j) (b ∷ bs) w = elim (insert_listed e j bs w) [
    | none ↦ none
    | some (bs', w') ↦ some (b ∷ bs', w')
  ]

  -- The edge goes into the table of the stage; `links` says where this table belongs.
  unfoldable pub place :
      Edge → (NodeTable → List NodeTable) → Stage → HoleMerge → Option (Bool × HoleMerge × Store)
  place e links s m = elim (offer_edge fl e s) [
    | none ↦ none
    | some t ↦ some (true, record m { link = links t.table; blacklist = t.left }, t.store)
  ]

  -- The condition of the loop over `i`.
  unfoldable pub open_to : HoleMerge → NodeTable → Bool
  open_to m c = room fl c && ltb (length m.blacklist) bbl

  -- The three tables become one, and a second one is opened.
  unfoldable pub merged :
      Edge
      → NodeTable
      → NodeTable
      → NodeTable
      → HoleMerge
      → Store
      → Option (Bool × HoleMerge × Store)
  merged e c0 c1 c2 m g =
      let s = merge3 m.s1 m.s2 c0 c1 c2 m.blacklist g in
      let c = NodeTable.new (s.table.len1 / 2) (s.table.len2 / 2) m.s1 m.s2 in
      place e (λ t. s.table ∷ t ∷ []) (reopen s.left c s.store) m

  -- `insert` of an edge of a source that no slot has, by the number of tables
  unfoldable pub insert_new :
      Edge → List NodeTable → HoleMerge → Store → Option (Bool × HoleMerge × Store)
  insert_new e [] m g =
      let c = NodeTable.new m.ll1 m.ll2 m.s1 m.s2 in
      place e (λ t. t ∷ []) (record { table = c; left = m.blacklist; store = g }) m
  insert_new e (c0 ∷ []) m g =
      if not (room fl c0) || leb bbl (length m.blacklist)
      then place e (λ t. c0 ∷ t ∷ [])
          (reopen m.blacklist (NodeTable.new (c0.len1 / 2) (c0.len2 / 2) m.s1 m.s2) g) m
      else place e (λ t. t ∷ []) (record { table = c0; left = m.blacklist; store = g }) m
  insert_new e (c0 ∷ c1 ∷ []) m g =
      if open_to m c1
      then place e (λ t. c0 ∷ t ∷ []) (record { table = c1; left = m.blacklist; store = g }) m
      else if open_to m c0
      then place e (λ t. t ∷ c1 ∷ []) (record { table = c0; left = m.blacklist; store = g }) m
      else place e (λ t. c0 ∷ c1 ∷ t ∷ [])
          (reopen m.blacklist (NodeTable.new c1.len1 c1.len2 m.s1 m.s2) g) m
  insert_new e (c0 ∷ c1 ∷ c2 ∷ []) m g =
      if open_to m c2
      then place e (λ t. c0 ∷ c1 ∷ t ∷ []) (record { table = c2; left = m.blacklist; store = g }) m
      else if open_to m c1
      then place e (λ t. c0 ∷ t ∷ c2 ∷ []) (record { table = c1; left = m.blacklist; store = g }) m
      else if open_to m c0
      then place e (λ t. t ∷ c1 ∷ c2 ∷ []) (record { table = c0; left = m.blacklist; store = g }) m
      else merged e c0 c1 c2 m g
  insert_new e (c0 ∷ c1 ∷ c2 ∷ c3 ∷ cs) m g = some (false, m, g)

  unfoldable pub insert : Edge → HoleMerge → Store → Option (Bool × HoleMerge × Store)
  insert e m g =
      let fresh = insert_new e m.link m g in
      elim (query3 e m g.world) [
        | surely ↦ some (true, m, g)
        | linked i p ↦ elim (insert_linked e i p m.link g.world) [
          | none ↦ none
          | some (cs, w) ↦ some (true, record m { link = cs }, record g { world = w })
        ]
        | listed j ↦ elim (insert_listed e j m.blacklist g.world) [
          | none ↦ none
          | some (bs, w) ↦ some (true, record m { blacklist = bs }, record g { world = w })
        ]
        | missing ↦ fresh
      ]
