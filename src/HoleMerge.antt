-- ===== src/HoleMerge.antt =====
-- CuckooGraph/main.cpp, class holemerge: the graph store. Its tables hold one slot for each source
-- node; a slot that is turned out of a table goes to `blacklist`. The pointers `link[0..state]` are
-- not null and the others are: `link` is the list of these tables, so that `state` is -1 for [].
pub mod Offer
pub mod Merge
pub mod Grow
pub mod Shrink
pub mod Receive
pub mod Double
pub mod Poured
pub mod Merged
pub mod Squeeze
pub mod Compress
pub mod Invariant
pub mod Known
pub mod Listed
pub mod Fresh
pub mod Branches
pub mod Insert
pub mod Run
pub mod Successors
pub mod Triangles
pub mod Lost
use cuckoo_graph.Prelude.{
  ℕ, zero, suc, ◌+◌, Bool, true, false, not, ◌&&◌, Option, none, some, List, [], ◌∷◌, ◌==◌, ltb,
  if◌then◌else◌,
}
use cuckoo_graph.Hash.{home}
use cuckoo_graph.Slot
use cuckoo_graph.Slot.{Edge, edge, Slot, World}
use cuckoo_graph.Slot.Neighbours
use cuckoo_graph.NodeTable
use cuckoo_graph.NodeTable.{Place, sure, first, second, nowhere}
use cuckoo_graph.NodeTable.Row.{Row}
use cuckoo_graph.NodeTable.Layers
use cuckoo_graph.NodeTable.Kicks.{NodeTable, Store}

-- `bbl` and `bminc2`
abbrev pub bbl : ℕ
bbl = 128

abbrev pub bminc2 : ℕ
bminc2 = 4

pub record HoleMerge : Type 0 where
  pub link : List NodeTable
  pub ll1 : ℕ
  pub ll2 : ℕ
  pub s1 : ℕ
  pub s2 : ℕ
  pub blacklist : List Slot

-- The constructor, which also clears `sblacklist`.
unfoldable pub new : ℕ → ℕ → ℕ → ℕ → Store → HoleMerge × Store
new l1 l2 s1 s2 g = (
  record { link = []; ll1 = l1; ll2 = l2; s1 = s1; s2 = s2; blacklist = [] },
  record g { world = record g.world { sblacklist = [] } },
)

unfoldable pub query_links : Edge → List NodeTable → World → ℕ
query_links e [] w = 0
query_links e (c ∷ cs) w =
    let rest = query_links e cs w in
    let ans = NodeTable.query e c w in if ans == 0 then rest else ans

-- the loop over the blacklist
unfoldable pub query_listed : Edge → List Slot → World → ℕ
query_listed e [] w = 0
query_listed e (b ∷ bs) w =
    let rest = query_listed e bs w in if b.src == e.src then Slot.query e b w else rest

unfoldable pub query : Edge → HoleMerge → World → ℕ
query e m w =
    let ans = query_links e m.link w in if ans == 0 then query_listed e m.blacklist w else ans

-- The answers of `query3`: `sure`, a link with the place in its table, `blist` with the index in
-- the blacklist, and 0.
pub data Found : Type 0 where
  surely : Found
  linked : ℕ → Place → Found
  listed : ℕ → Found
  missing : Found

unfoldable pub query3_listed : ℕ → Edge → List Slot → World → Found
query3_listed j e [] w = missing
query3_listed j e (b ∷ bs) w =
    let rest = query3_listed (suc j) e bs w in
    if b.src == e.src then if Slot.query e b w == 0 then listed j else surely else rest

unfoldable pub query3_from : ℕ → Edge → List NodeTable → List Slot → World → Found
query3_from i e [] bs w = query3_listed 0 e bs w
query3_from i e (c ∷ cs) bs w =
    let rest = query3_from (suc i) e cs bs w in
    elim (NodeTable.query3 e c w) [
      | sure ↦ surely
      | nowhere ↦ rest
      | first p x ↦ linked i (first p x)
      | second p x ↦ linked i (second p x)
    ]

unfoldable pub query3 : Edge → HoleMerge → World → Found
query3 e m w = query3_from 0 e m.link m.blacklist w

-- The loop over `j`, which looks at the two rows in turn.
unfoldable pub pick : ℕ → Row → Row → Option Slot
pick s [] ys = none
pick s (x ∷ xs) [] = none
pick s (x ∷ xs) (y ∷ ys) =
    let rest = pick s xs ys in if s == x.src then some x else if s == y.src then some y else rest

unfoldable pub pick_listed : ℕ → List Slot → Option Slot
pick_listed s [] = none
pick_listed s (b ∷ bs) = let rest = pick_listed s bs in if b.src == s then some b else rest

-- The slot whose neighbours `query_successor` and `GetNeighbors` list.
unfoldable pub slot_of : ℕ → List NodeTable → List Slot → Option Slot
slot_of s [] bs = pick_listed s bs
slot_of s (c ∷ cs) bs =
    let rest = slot_of s cs bs in
    let h1 = home s c.seed1 c.layer1.length in
    let h2 = home s c.seed2 c.layer2.length in
    elim (pick s (Layers.row h1 c.layer1) (Layers.row h2 c.layer2)) [
      | some b ↦ some b
      | none ↦ rest
    ]

-- The entries from `U` on are written; `successor` holds the entries before that.
unfoldable pub query_successor : ℕ → List ℕ → HoleMerge → World → List ℕ × ℕ
query_successor s successor m w = elim (slot_of s m.link m.blacklist) [
  | some b ↦ Neighbours.query_successor s successor b w
  | none ↦ (successor, 0)
]

unfoldable pub get_neighbors : ℕ → HoleMerge → World → List (ℕ × ℕ)
get_neighbors s m w = elim (slot_of s m.link m.blacklist) [
  | some b ↦ Neighbours.get_neighbors s b w
  | none ↦ []
]

-- The inner loop of `query_triangles`: `mid` is `successor1[i]`.
unfoldable pub closing : ℕ → ℕ → List ℕ → HoleMerge → World → ℕ
closing s mid [] m w = 0
closing s mid (far ∷ fars) m w =
    let rest = closing s mid fars m w in
    if not (far == mid) && not (mid == s) && not (far == s) && ltb 0 (query (edge far s) m w)
    then suc rest
    else rest

unfoldable pub triangles : ℕ → List ℕ → HoleMerge → World → ℕ
triangles s [] m w = 0
triangles s (mid ∷ mids) m w =
    closing s mid (query_successor mid [] m w).0 m w + triangles s mids m w

unfoldable pub query_triangles : ℕ → HoleMerge → World → ℕ
query_triangles s m w = triangles s (query_successor s [] m w).0 m w
