-- ===== src/Tests/Filled.antt =====
-- The table that a list of keys fills is valid.
use cuckoo_graph.Prelude.{ℕ, ◌+◌, ◌≤◌, ◌≡◌, ◌≢◌, List, [], ◌∷◌, All, arith, tally}
use cuckoo_graph.Cuckoo
use cuckoo_graph.Cuckoo.{Cuckoo}
use cuckoo_graph.Cuckoo.Invariant
use cuckoo_graph.Cuckoo.Invariant.{total, is}
use cuckoo_graph.Cuckoo.Insert.{insert-Takes}
use cuckoo_graph.Tests.Inputs.{filled}

pub filled-IsSound :
    (ks : List ℕ) (c : Cuckoo) (g : Cuckoo.Globals)
    → Invariant.IsValid c
    → All (λ k. k ≢ 0) ks
    → ((k : ℕ) → k ≢ 0 → total (is k) c + tally (is k) ks ≤ 1)
    → Invariant.IsValid (filled ks c g).0
unfolding filled tally
filled-IsSound [] c g v h fresh = v
filled-IsSound (k ∷ ks) c g v h fresh =
    let t = insert-Takes g v h.0 (ground (arith, fresh k h.0)) in
    let r = Cuckoo.insert k c g in
    filled-IsSound ks r.table r.globals t.valid h.1
      (λ j nz. ground (arith, fresh j nz, t.tallies (is j)))

pub All-nonzero : (ks : List ℕ) → tally (is 0) ks ≡ 0 → All (λ k. k ≢ 0) ks
unfolding tally
All-nonzero [] h = tt
All-nonzero (k ∷ ks) h = (ground arith, All-nonzero ks (ground arith))
