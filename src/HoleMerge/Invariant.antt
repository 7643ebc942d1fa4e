-- ===== src/HoleMerge/Invariant.antt =====
-- A well-formed store, the graph that it stands for, and `query` against this graph.
use cuckoo_graph.Prelude.{
  ℕ, ◌+◌, ◌*◌, ◌<◌, ◌≤◌, ◌≡◌, ◌≢◌, ◌↔◌, refl, inl, inr, Bool, true, false, ◌==◌, List, [], ◌∷◌,
  arith, length as size, tally, All, Bool-cases,
}
use cuckoo_graph.Cuckoo.Invariant.{is}
use cuckoo_graph.Slot.{Edge, Slot, World, own}
use cuckoo_graph.Slot.Stands.{Graph, Stands}
use cuckoo_graph.NodeTable
use cuckoo_graph.NodeTable.Kicks.{NodeTable, Store}
use cuckoo_graph.NodeTable.Placement.{on, free}
use cuckoo_graph.NodeTable.Conserve.{IsSound, total}
use cuckoo_graph.NodeTable.Lookup.{own_query, table_query-graph}
use cuckoo_graph.HoleMerge.{HoleMerge, new, query, query_links, query_listed}

-- How many slots of the tables have a source that passes the test.
abbrev pub links_total : (ℕ → Bool) → List NodeTable → ℕ
links_total p [] = 0
links_total p (c ∷ cs) = total p c + links_total p cs

-- The same for the whole store.
abbrev pub count : (ℕ → Bool) → HoleMerge → ℕ
count p m = links_total p m.link + tally (on p) m.blacklist

-- The widths and the seeds of a table.
pub record Dims : Type 0 where
  pub len1 : ℕ
  pub len2 : ℕ
  pub seed1 : ℕ
  pub seed2 : ℕ

abbrev pub dims : NodeTable → Dims
dims c = record { len1 = c.len1; len2 = c.len2; seed1 = c.seed1; seed2 = c.seed2 }

abbrev pub all_dims : List NodeTable → List Dims
all_dims [] = []
all_dims (c ∷ cs) = dims c ∷ all_dims cs

abbrev pub sized : ℕ → ℕ → ℕ → ℕ → Dims
sized s1 s2 l1 l2 = record { len1 = l1; len2 = l2; seed1 = s1; seed2 = s2 }

-- The first table is twice as wide as the others.
abbrev pub Shape : ℕ → ℕ → ℕ → ℕ → List Dims → Type 0
Shape s1 s2 a1 a2 [] = Unit
Shape s1 s2 a1 a2 (d ∷ ds) =
    (d ≡ sized s1 s2 (a1 * 2) (a2 * 2)) × All (λ x. x ≡ sized s1 s2 a1 a2) ds

-- There are at most three tables, the first of them twice as wide as the others; each source has at
-- most one slot, which stands for its row of the graph, and a source without a slot has no edges,
-- neither in the graph nor in the list `sblacklist`.
pub record Represents (graph : Graph) (m : HoleMerge) (w : World) : Type 0 where
  pub half1 : (h : ℕ) × (m.ll1 ≡ h * 2) × (0 < h)
  pub half2 : (h : ℕ) × (m.ll2 ≡ h * 2) × (0 < h)
  pub width1 : ℕ
  pub width2 : ℕ
  pub wide1 : 0 < width1
  pub wide2 : 0 < width2
  pub shape : Shape m.s1 m.s2 width1 width2 (all_dims m.link)
  pub few_tables : size (all_dims m.link) ≤ 3
  pub sound : All (IsSound (Stands graph w)) m.link
  pub stands : All (Stands graph w) m.blacklist
  pub live : tally (on free) m.blacklist ≡ 0
  pub unique : (s : ℕ) → s ≢ 0 → count (is s) m ≤ 1
  pub known :
      (s : ℕ)
      → s ≢ 0
      → count (is s) m ≡ 0
      → ((d : ℕ) → graph s d ≡ false) × (own s w.sblacklist ≡ [])
  pub free_list : own 0 w.sblacklist ≡ []

-- The graph without edges.
abbrev pub no_edges : Graph
no_edges s d = false

-- The constructor, with even widths that are not 0, makes a store that stands for no edges.
pub new_store-Represents :
    (h1 h2 s1 s2 : ℕ) (g : Store)
    → 0 < h1
    → 0 < h2
    → let (m, g') = new (h1 * 2) (h2 * 2) s1 s2 g in Represents no_edges m g'.world
unfolding new own tally
new_store-Represents h1 h2 s1 s2 g p q = record {
  half1 = (h1, refl, p);
  half2 = (h2, refl, q);
  width1 = 1;
  width2 = 1;
  wide1 = omega arith;
  wide2 = omega arith;
  shape = tt;
  few_tables = omega arith;
  sound = tt;
  stands = tt;
  live = refl;
  unique = λ s nz. omega arith;
  known = λ s nz none_there. (λ d. refl, refl);
  free_list = refl;
}

module _ (graph : Graph) (w : World) (e : Edge) (live : e.src ≢ 0) (nz : e.dst ≢ 0) where
  pub links_query-graph :
      (cs : List NodeTable)
      → All (IsSound (Stands graph w)) cs
      → (0 < query_links e cs w) ↔ ((0 < links_total (is e.src) cs) × (graph e.src e.dst ≡ true))
  unfolding query_links
  links_query-graph [] a = ground arith
  links_query-graph (c ∷ cs) a =
      let here = table_query-graph graph w e live nz a.0 in
      let rest = links_query-graph cs a.1 in
      elim (Bool-cases (NodeTable.query e c w == 0)) [
        | inl z ↦ rw z (ground (arith, here, rest))
        | inr f ↦ rw f (ground (arith, here, rest))
      ]

  pub listed_query-graph :
      (bs : List Slot)
      → All (Stands graph w) bs
      → (0 < query_listed e bs w) ↔ ((0 < tally (on (is e.src)) bs) × (graph e.src e.dst ≡ true))
  unfolding query_listed tally
  listed_query-graph [] a = ground arith
  listed_query-graph (b ∷ bs) a = elim (Bool-cases (b.src == e.src)) [
    | inl same ↦
        let q = own_query graph w e live nz a.0 (ground arith) in rw same (ground (arith, q))
    | inr other ↦ let rest = listed_query-graph bs a.1 in rw other (ground (arith, rest))
  ]

-- On a well-formed store `query` finds just the edges of the graph that it stands for.
pub query-graph :
    (e : Edge) {graph : Graph} {m : HoleMerge} {w : World}
    → Represents graph m w
    → e.src ≢ 0
    → e.dst ≢ 0
    → (0 < query e m w) ↔ (graph e.src e.dst ≡ true)
unfolding query
query-graph e {graph} {m} {w} v live nz =
    let a = links_query-graph graph w e live nz m.link v.sound in
    let b = listed_query-graph graph w e live nz m.blacklist v.stands in
    let absent : count (is e.src) m ≡ 0 → graph e.src e.dst ≡ false =
      λ h. (v.known e.src live h).0 e.dst in
    elim (Bool-cases (query_links e m.link w == 0)) [
      | inl z ↦ rw z (ground (arith, a, b, absent))
      | inr f ↦ rw f (ground (arith, a, b, absent))
    ]
