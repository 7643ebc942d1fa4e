-- ===== src/Bfs/Growth.antt =====
-- What the loop over the neighbours of a node does to the search.
use cuckoo_graph.Prelude.{
  ℕ, ◌+◌, ◌<◌, ◌≡◌, ◌⊎◌, ◌∙◌, refl, sym, ap, inl, inr, true, false, arith, to_nat, ◌==◌, Bool-cases,
  List, [], ◌∷◌, length, length-append, tally, tally-append, map,
}
use cuckoo_graph.Cuckoo.Invariant.{is}
use cuckoo_graph.Bfs.{Search, visit, visit_all}
use cuckoo_graph.Bfs.Counting.{unseen, unseen-mark}

abbrev pub In : ℕ → List ℕ → Type 0
In d xs = 0 < tally (is d) xs

-- From `s` to `t` the nodes of `ks` were visited; `n` bounds them.
pub record Visits (n : ℕ) (ks : List ℕ) (s t : Search) : Type 0 where
  pub kept : (d : ℕ) → s.visited d ≡ true → t.visited d ≡ true
  pub came : (d : ℕ) → t.visited d ≡ true → (s.visited d ≡ true) ⊎ In d ks
  pub all : (d : ℕ) → In d ks → t.visited d ≡ true
  pub queue : (d : ℕ) → In d s.q → In d t.q
  pub queued : (d : ℕ) → In d t.q → In d s.q ⊎ (t.visited d ≡ true)
  pub fresh : (d : ℕ) → t.visited d ≡ true → (s.visited d ≡ true) ⊎ In d t.q
  pub nodes :
      (d : ℕ)
      → tally (is d) t.bfs_node + to_nat (s.visited d)
        ≡ tally (is d) s.bfs_node + to_nat (t.visited d)
  pub num : t.node_num + length s.bfs_node ≡ s.node_num + length t.bfs_node
  pub left : unseen n t.visited + length t.q ≡ unseen n s.visited + length s.q

abbrev pair : ℕ → ℕ × ℕ
pair d = (d, 1)

-- One neighbour.
visit-Visits : (n v : ℕ) (s : Search) → v < n → Visits n (v ∷ []) s (visit (v, 1) s)
unfolding visit tally
visit-Visits n v s lt = elim (Bool-cases (s.visited v)) [
  | inl old ↦
      let again : (d : ℕ) → In d (v ∷ []) → s.visited d ≡ true =
        λ d h. let at : v ≡ d = ground arith in sym (ap s.visited at) ∙ old in
      rw old (record {
        kept = λ d h. h;
        came = λ d h. inl h;
        all = again;
        queue = λ d h. h;
        queued = λ d h. inl h;
        fresh = λ d h. inl h;
        nodes = λ d. refl;
        num = omega arith;
        left = refl;
      })
  | inr new ↦
      let q = λ (d : ℕ). tally-append (is d) s.q (v ∷ []) in
      let b = λ (d : ℕ). tally-append (is d) s.bfs_node (v ∷ []) in
      let unseen_v : (d : ℕ) → d ≡ v → s.visited d ≡ false = λ d at. ap s.visited at ∙ new in
      rw new (record {
        kept = λ d h. ground (arith, h);
        came = λ d h. ground (arith, h);
        all = λ d h. ground (arith, h);
        queue = λ d h. omega (arith, q d);
        queued = λ d h. ground (arith, q d, h);
        fresh = λ d h. ground (arith, q d, h);
        nodes = λ d. ground (arith, b d, unseen_v d);
        num = omega (arith, length-append s.bfs_node (v ∷ []));
        left = omega (arith, length-append s.q (v ∷ []), unseen-mark n v s.visited lt new);
      })
]

-- All neighbours.
pub visit_all-Visits :
    (n : ℕ) (ks : List ℕ) (s : Search)
    → ((d : ℕ) → In d ks → d < n)
    → Visits n ks s (visit_all (map (λ d. (d, 1)) ks) s)
unfolding visit_all tally
visit_all-Visits n [] s below = record {
  kept = λ d h. h;
  came = λ d h. inl h;
  all = λ d h. absurd (omega arith);
  queue = λ d h. h;
  queued = λ d h. inl h;
  fresh = λ d h. inl h;
  nodes = λ d. refl;
  num = omega arith;
  left = refl;
}
visit_all-Visits n (v ∷ ks) s below =
    let a = visit-Visits n v s (below v (ground arith)) in
    let b = visit_all-Visits n ks (visit (v, 1) s) (λ d h. below d (omega arith)) in
    record {
      kept = λ d h. b.kept d (a.kept d h);
      came = λ d h. ground (arith, b.came d h, a.came d);
      all = λ d h. elim (Bool-cases (v == d)) [
        | inl same ↦ b.kept d (a.all d (ground arith))
        | inr other ↦ b.all d (ground arith)
      ];
      queue = λ d h. b.queue d (a.queue d h);
      queued = λ d h. elim (b.queued d h) [
        | inl old ↦ elim (a.queued d old) [ inl older ↦ inl older | inr seen ↦ inr (b.kept d seen) ]
        | inr seen ↦ inr seen
      ];
      fresh = λ d h. elim (b.fresh d h) [
        | inl old ↦ elim (a.fresh d old) [
          | inl older ↦ inl older
          | inr queued_then ↦ inr (b.queue d queued_then)
        ]
        | inr queued_now ↦ inr queued_now
      ];
      nodes = λ d. omega (arith, a.nodes d, b.nodes d);
      num = omega (arith, a.num, b.num);
      left = b.left ∙ a.left;
    }
