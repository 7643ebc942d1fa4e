-- ===== src/HoleMerge/Run.antt =====
-- Many insertions into the store, the way the experiments fill it: from the constructor on, `query`
-- finds just the edges that were inserted.
use cuckoo_graph.Prelude.{
  ℕ, ◌*◌, ◌<◌, ◌≡◌, ◌≢◌, ◌↔◌, refl, true, ◌||◌, Option, none, some, List, [], ◌∷◌, arith, All,
}
use cuckoo_graph.Floats.{Floats}
use cuckoo_graph.Slot.{Edge, edge, on_list}
use cuckoo_graph.Slot.Stands.{Graph, adds}
use cuckoo_graph.NodeTable.Kicks.{Store}
use cuckoo_graph.HoleMerge.{HoleMerge, new, query}
use cuckoo_graph.HoleMerge.Grow.{insert}
use cuckoo_graph.HoleMerge.Invariant.{Represents, no_edges, new_store-Represents, query-graph}
use cuckoo_graph.HoleMerge.Insert.{insert-Adds}

-- The loop over the edges of a data set.
unfoldable pub insert_all : Floats → List Edge → HoleMerge → Store → Option (HoleMerge × Store)
insert_all fl [] m g = some (m, g)
insert_all fl (e ∷ es) m g = elim (insert fl e m g) [
  | none ↦ none
  | some (done, m', g') ↦ insert_all fl es m' g'
]

-- The graph with all these edges.
abbrev pub adds_all : List Edge → Graph → Graph
adds_all [] graph = graph
adds_all (e ∷ es) graph = adds_all es (adds e graph)

adds_all-on_list :
    (es : List Edge) (graph : Graph) (s d : ℕ)
    → (adds_all es graph s d ≡ true) ↔ ((on_list (edge s d) es || graph s d) ≡ true)
unfolding on_list
adds_all-on_list [] graph s d = (λ h. h, λ h. h)
adds_all-on_list (e ∷ es) graph s d = ground (arith, adds_all-on_list es (adds e graph) s d)

abbrev pub IsLive : Edge → Type 0
IsLive e = (e.src ≢ 0) × (e.dst ≢ 0)

-- Insertions of edges whose ends are not 0 run one after the other, and the store that they leave is
-- well formed and stands for the graph with these edges.
pub insert_all-Represents :
    (fl : Floats) (es : List Edge) {graph : Graph} (m : HoleMerge) (g : Store)
    → Represents graph m g.world
    → All IsLive es
    → (m' : HoleMerge) × (g' : Store) × (insert_all fl es m g ≡ some (m', g'))
      × Represents (adds_all es graph) m' g'.world
unfolding insert_all
insert_all-Represents fl [] m g v a = (m, g, refl, v)
insert_all-Represents fl (e ∷ es) {graph} m g v a =
    let (m', g', run, v') = insert-Adds fl graph e m g a.0.0 a.0.1 v in
    let (m'', g'', run', v'') = insert_all-Represents fl es m' g' v' a.1 in
    (m'', g'', rw (run, insert_all) run', v'')

-- A store made by the constructor with even widths that are not 0, into which edges are inserted whose
-- ends are not 0: no insertion dereferences a null pointer or fails an assertion, and afterwards
-- `query` of an edge whose ends are not 0 answers other than 0 exactly when it is one of them.
pub query-insert_all :
    (fl : Floats) (h1 h2 s1 s2 : ℕ) (g : Store) (es : List Edge)
    → 0 < h1
    → 0 < h2
    → All IsLive es
    → let (m0, g0) = new (h1 * 2) (h2 * 2) s1 s2 g in
      (m : HoleMerge) × (g' : Store) × (insert_all fl es m0 g0 ≡ some (m, g'))
      × ((e : Edge) → e.src ≢ 0 → e.dst ≢ 0 → (0 < query e m g'.world) ↔ (on_list e es ≡ true))
query-insert_all fl h1 h2 s1 s2 g es p q a =
    let (m0, g0) = new (h1 * 2) (h2 * 2) s1 s2 g in
    let (m, g', run, v) =
      insert_all-Represents fl es m0 g0 (new_store-Represents h1 h2 s1 s2 g p q) a in
    (
      m,
      g',
      run,
      λ e live nz.
          ground (arith, query-graph e v live nz, adds_all-on_list es no_edges e.src e.dst),
    )
