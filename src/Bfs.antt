-- ===== src/Bfs.antt =====
-- CuckooGraph/main.cpp, hole_Bfs: a breadth first search on the graph store. The file that it writes
-- its result to, and the clock, are left out.
pub mod Counting
pub mod Growth
pub mod Reached
use cuckoo_graph.Prelude.{
  ℕ, zero, suc, Bool, true, false, Option, none, some, List, [], ◌∷◌, ◌++◌, ◌==◌, if◌then◌else◌,
}
use cuckoo_graph.Slot.{World}
use cuckoo_graph.HoleMerge
use cuckoo_graph.HoleMerge.{HoleMerge}

-- `q`, `visited`, `bfs_node` and `node_num`; a node that is no key of `visited` counts as false.
pub record Search : Type 0 where
  pub q : List ℕ
  pub visited : ℕ → Bool
  pub bfs_node : List ℕ
  pub node_num : ℕ

-- `visited[v] = true`
abbrev pub mark : ℕ → (ℕ → Bool) → ℕ → Bool
mark v visited d = if d == v then true else visited d

-- The body of the loop over the neighbours.
unfoldable pub visit : ℕ × ℕ → Search → Search
visit (v, weight) s = if s.visited v then s else record {
  q = s.q ++ v ∷ [];
  visited = mark v s.visited;
  bfs_node = s.bfs_node ++ v ∷ [];
  node_num = suc s.node_num;
}

unfoldable pub visit_all : List (ℕ × ℕ) → Search → Search
visit_all [] s = s
visit_all (x ∷ xs) s = visit_all xs (visit x s)

-- `while (q.size())`, for the given number of rounds.
unfoldable pub search : ℕ → HoleMerge → World → Search → Option Search
search zero m w s = elim s.q [ [] ↦ some s | v ∷ q ↦ none ]
search (suc rounds) m w s = elim s.q [
  | [] ↦ some s
  | v ∷ q ↦ search rounds m w (visit_all (HoleMerge.get_neighbors v m w) (record s { q = q }))
]

unfoldable pub begin : ℕ → Search
begin src = record {
  q = src ∷ [];
  visited = mark src (λ d. false);
  bfs_node = src ∷ [];
  node_num = 1;
}

-- The search from `src`.
unfoldable pub hole_bfs : ℕ → HoleMerge → World → ℕ → Option Search
hole_bfs rounds m w src = search rounds m w (begin src)
