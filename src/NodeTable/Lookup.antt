-- ===== src/NodeTable/Lookup.antt =====
-- bCuckoo::query and bCuckoo::query3 against the graph that the slots stand for.
use cuckoo_graph.Prelude.{
  ℕ, suc, ◌+◌, ◌<◌, ◌≡◌, ◌≢◌, ◌↔◌, ◌∙◌, refl, sym, ap, subst, inl, inr, true, ◌==◌, [], ◌∷◌, arith,
  get_or, length as size, tally, All, Bool-cases,
}
use cuckoo_graph.Bucket.{bup}
use cuckoo_graph.Slot
use cuckoo_graph.Slot.{Edge, edge, Slot, World}
use cuckoo_graph.Slot.Stands.{Graph, Stands}
use cuckoo_graph.NodeTable.{Place, sure, first, second, nowhere, query, query3}
use cuckoo_graph.NodeTable.Row
use cuckoo_graph.NodeTable.Row.{Row, Seen, surely, spot, missing, query3_from}
use cuckoo_graph.NodeTable.Layers
use cuckoo_graph.NodeTable.Layers.{Layer}
use cuckoo_graph.NodeTable.Kicks.{NodeTable}
use cuckoo_graph.NodeTable.Placement
use cuckoo_graph.NodeTable.Placement.{on, slots, count-home, index-lt}
use cuckoo_graph.NodeTable.Conserve.{IsSound, total}

-- What `query3` tells of a row; `i` is the index of its first slot.
pub data RowSees (graph : Graph) (e : Edge) (i : ℕ) (xs : Row) (r : Seen) : Type 0 where
  row_sure : r ≡ surely → graph e.src e.dst ≡ true → RowSees graph e i xs r
  row_spot :
      (x : ℕ)
      → r ≡ spot (i + x)
      → x < size xs
      → (get_or xs x Slot.new).src ≡ e.src
      → RowSees graph e i xs r
  row_missing : r ≡ missing → tally (on (λ s. s == e.src)) xs ≡ 0 → RowSees graph e i xs r

-- What `query3` tells of a table.
pub data TableSees (graph : Graph) (e : Edge) (c : NodeTable) (r : Place) : Type 0 where
  table_sure : r ≡ sure → graph e.src e.dst ≡ true → TableSees graph e c r
  table_first :
      (x : ℕ)
      → r ≡ first (Layers.index e.src c.layer1) x
      → x < bup
      → (Layers.read (Layers.index e.src c.layer1) x c.layer1).src ≡ e.src
      → TableSees graph e c r
  table_second :
      (x : ℕ)
      → r ≡ second (Layers.index e.src c.layer2) x
      → x < bup
      → (Layers.read (Layers.index e.src c.layer2) x c.layer2).src ≡ e.src
      → TableSees graph e c r
  table_missing : r ≡ nowhere → total (λ s. s == e.src) c ≡ 0 → TableSees graph e c r

module _ (graph : Graph) (w : World) (e : Edge) (live : e.src ≢ 0) (nz : e.dst ≢ 0) where
  -- The slot of the source answers for the graph.
  pub own_query :
      {b : Slot}
      → Stands graph w b
      → b.src ≡ e.src
      → (0 < Slot.query e b w) ↔ (graph e.src e.dst ≡ true)
  own_query {b} v same =
      subst (λ s. (0 < Slot.query (edge s e.dst) b w) ↔ (graph s e.dst ≡ true)) same
        (v.lists (λ z. live (sym same ∙ z)) e.dst nz)

  row_query-graph :
      (xs : Row)
      → All (Stands graph w) xs
      → (0 < Row.query e xs w)
        ↔ ((0 < tally (on (λ s. s == e.src)) xs) × (graph e.src e.dst ≡ true))
  unfolding Row.query tally
  row_query-graph [] a = ground arith
  row_query-graph (b ∷ xs) a = elim (Bool-cases (b.src == e.src)) [
    | inl same ↦ let q = own_query a.0 (ground arith) in rw same (ground (arith, q))
    | inr other ↦ let rest = row_query-graph xs a.1 in rw other (ground (arith, rest))
  ]

  layer_query-graph :
      {l : Layer}
      → Placement.IsValid (Stands graph w) l
      → (0 < Layers.query e l w)
        ↔ ((0 < tally (on (λ s. s == e.src)) (slots l)) × (graph e.src e.dst ≡ true))
  unfolding Layers.query
  layer_query-graph {l} v =
      rw (count-home e.src v live)
        (row_query-graph (Layers.row (Layers.index e.src l) l) (v.stands _))

  -- `query` of a sound table finds an edge exactly when a slot of the source is there and the graph
  -- has the edge.
  pub table_query-graph :
      {c : NodeTable}
      → IsSound (Stands graph w) c
      → (0 < query e c w) ↔ ((0 < total (λ s. s == e.src) c) × (graph e.src e.dst ≡ true))
  unfolding query
  table_query-graph {c} v =
      let a = layer_query-graph v.valid1 in
      let b = layer_query-graph v.valid2 in
      elim (Bool-cases (Layers.query e c.layer1 w == 0)) [
        | inl z ↦ rw z (ground (arith, a, b))
        | inr f ↦ rw f (ground (arith, a, b))
      ]

  row_query3_cases :
      (i : ℕ) (xs : Row) → All (Stands graph w) xs → RowSees graph e i xs (query3_from i e xs w)
  unfolding query3_from tally
  row_query3_cases i [] a = row_missing refl refl
  row_query3_cases i (b ∷ xs) a = elim (Bool-cases (b.src == e.src)) [
    | inl same ↦
        let at : b.src ≡ e.src = ground arith in
        let q = own_query a.0 at in
        elim (Bool-cases (Slot.query e b w == 0)) [
          | inl z ↦ row_spot 0 (rw (same, z) (ap spot (omega arith))) (omega arith) at
          | inr f ↦ row_sure (rw (same, f) refl) (q.0 (ground arith))
        ]
    | inr other ↦ elim (row_query3_cases (suc i) xs a.1) [
      | row_sure r h ↦ row_sure (rw (other, r) refl) h
      | row_spot x r lt h ↦ row_spot (suc x) (rw (other, r) (ap spot (omega arith))) (omega arith) h
      | row_missing r h ↦ row_missing (rw (other, r) refl) (ground arith)
    ]
  ]

  pub table_query3_cases :
      {c : NodeTable} → IsSound (Stands graph w) c → TableSees graph e c (query3 e c w)
  unfolding query3 Row.query3 Layers.read
  table_query3_cases {c} v =
      let p = Layers.index e.src c.layer1 in
      let q = Layers.index e.src c.layer2 in
      let wide1 = v.valid1.widths p (index-lt e.src v.valid1) in
      let wide2 = v.valid2.widths q (index-lt e.src v.valid2) in
      elim (row_query3_cases 0 (Layers.row p c.layer1) (v.valid1.stands p)) [
        | row_sure r h ↦ table_sure (rw (r, query3) refl) h
        | row_spot x r lt h ↦
            table_first x (rw (r, query3) (ap (first p) (omega arith))) (omega arith) h
        | row_missing r none_there ↦
            elim (row_query3_cases 0 (Layers.row q c.layer2) (v.valid2.stands q)) [
              | row_sure r2 h ↦ table_sure (rw (r, query3) (rw (r2, query3) refl)) h
              | row_spot x r2 lt h ↦
                  table_second x (rw (r, query3) (rw (r2, query3) (ap (second q) (omega arith))))
                    (omega arith) h
              | row_missing r2 none_here ↦
                  table_missing (rw (r, query3) (rw (r2, query3) refl))
                    (omega (arith, count-home e.src v.valid1 live, count-home e.src v.valid2 live))
            ]
      ]
