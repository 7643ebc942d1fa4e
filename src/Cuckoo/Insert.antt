-- ===== src/Cuckoo/Insert.antt =====
-- `Cuckoo::insert`: the new key goes in, the other keys stay, and `query` sees just that.
use cuckoo_graph.Prelude.{ℕ, ◌≡◌, ◌≢◌, ◌↔◌, ◌⊎◌, true, false, arith}
use cuckoo_graph.Layer
use cuckoo_graph.Layer.{Layer}
use cuckoo_graph.Layer.Placement.{
  Changes-refl, layer_insert_cases, layer_had, layer_full, layer_stored,
}
use cuckoo_graph.Cuckoo.{Cuckoo, Globals, kicktimes, insert2, insert, query}
use cuckoo_graph.Cuckoo.Invariant.{IsSound, IsValid, total, is, home-index, cuckoo_query-total}
use cuckoo_graph.Cuckoo.Kick.{IsFull, Takes, settled-Takes, kick_loop-Takes}

module _ {item : ℕ} {d : ℕ} {c : Cuckoo} (g : Globals) (v : IsSound d c) (nonzero : item ≢ 0)
    (absent : total (is item) c ≡ 0) where
  insert2-Takes : IsFull (Layer.index item c.layer1) c.layer1 → Takes d item c (insert2 item c g)
  unfolding insert2
  insert2-Takes full = elim (layer_insert_cases item v.valid2 nonzero) [
    | layer_had e held ↦ absurd (omega arith)
    | layer_stored n e none ch ↦
        rw (e, insert2)
          (rw e (
            settled-Takes v nonzero absent (Changes-refl 0 v.valid1) ch g
              (λ p zero_false. ground arith)))
    | layer_full e none full2 ↦
        let at = (home-index item v).0 in
        rw (e, insert2)
          (rw e (kick_loop-Takes kicktimes d true _ _ item c g v nonzero absent (at, rw at full)))
  ]

  -- For a sound table that does not hold the key, `insert` leaves a sound table of the same shape
  -- that holds its keys and the new key, each once; where it returns false, one of these, which is
  -- then in `mykick`, is left out.
  pub insert-Takes : Takes d item c (insert item c g)
  unfolding insert
  insert-Takes = elim (layer_insert_cases item v.valid1 nonzero) [
    | layer_had e held ↦ absurd (omega arith)
    | layer_stored m e none ch ↦
        rw (e, insert)
          (rw e (
            settled-Takes v nonzero absent ch (Changes-refl 0 v.valid2) g
              (λ p zero_false. ground arith)))
    | layer_full e none full ↦ rw (e, insert) (rw e (insert2-Takes full))
  ]

-- The same as the answers of `query`: afterwards it finds just the old keys and the new one, less
-- the key in `mykick` where `insert` returned false.
pub query-insert :
    (item key : ℕ) (c : Cuckoo) (g : Globals)
    → IsValid c
    → item ≢ 0
    → key ≢ 0
    → query item c ≡ false
    → let r = insert item c g in
      (query key r.table ≡ true)
      ↔ (((query key c ≡ true) ⊎ (key ≡ item)) × ((r.done ≡ true) ⊎ (key ≢ r.globals.mykick)))
query-insert item key c g v nonzero live fresh =
    let q = cuckoo_query-total item v nonzero in
    let absent : total (is item) c ≡ 0 = ground (arith, q) in
    let t = insert-Takes g v nonzero absent in
    let before = cuckoo_query-total key v live in
    let after = cuckoo_query-total key t.valid live in
    ground (arith, before, after, t.tallies (is key), t.left_over, t.valid.unique key live)
